-- ===== src/NetPol/Rules/Directions.antt =====
-- Directions: the default, and the policy types of a list of rules.
use Prim.Native.String.{compare}
use ipmaze.Base.{
  String, Bool, true, false, ◌||◌, ◌≡◌, refl, ap, ◌∙◌, Option, none, some, List, [], ◌∷◌, map,
  arith, any,
}
use ipmaze.Base.BTree.{set_insert, set_extend}
use ipmaze.Api.{Direction, ingress, egress, RuleSpec}
use ipmaze.NetPol.Rules.{
  compare_direction, effective_directions, has_direction, policy_type, collect_policy_types,
  build_policy_types,
}

-- A direction is listed.
abbrev pub lists : Direction → List Direction → Bool
lists d [] = false
lists ingress (ingress ∷ ds) = true
lists ingress (egress ∷ ds) = lists ingress ds
lists egress (ingress ∷ ds) = lists egress ds
lists egress (egress ∷ ds) = true

abbrev pub applies_to : Direction → Option (List Direction) → Bool
applies_to d none = true
applies_to d (some ds) = lists d ds

-- A rule applies to a direction that it lists; one without a list applies to both.
abbrev pub applies : Direction → RuleSpec → Bool
applies d rule = applies_to d rule.directions

has_direction-set_insert :
    (d e : Direction) (set : List Direction)
    → has_direction d (set_insert compare_direction e set)
      ≡ (has_direction d (e ∷ []) || has_direction d set)
has_direction-set_insert ingress ingress [] = refl
has_direction-set_insert ingress egress [] = refl
has_direction-set_insert egress ingress [] = refl
has_direction-set_insert egress egress [] = refl
has_direction-set_insert d e (f ∷ set) = ground (arith, has_direction-set_insert d e set)

has_direction-set_extend :
    (d : Direction) (set ds : List Direction)
    → has_direction d (set_extend compare_direction set ds) ≡ (has_direction d set || lists d ds)
has_direction-set_extend d set [] = ground arith
has_direction-set_extend d set (e ∷ ds) = ground (
  arith,
  has_direction-set_extend d (set_insert compare_direction e set) ds,
  has_direction-set_insert d e set,
)

-- `effective_directions` holds a direction exactly when the rule applies to it.
pub has_direction-effective_directions :
    (d : Direction) (rule : RuleSpec) → has_direction d (effective_directions rule) ≡ applies d rule
unfolding effective_directions
has_direction-effective_directions d rule = go d rule.directions
  where
    go :
        (d : Direction) (ds : Option (List Direction))
        → has_direction d (elim ds [
          | some directions ↦ set_extend compare_direction [] directions
          | none ↦ set_extend compare_direction [] (ingress ∷ egress ∷ [])
        ])
          ≡ applies_to d ds
    go ingress none = refl
    go egress none = refl
    go d (some ds) = has_direction-set_extend d [] ds

-- The four ascending sets of policy types.
abbrev pub types_of : Bool → Bool → List String
types_of true true = "Egress" ∷ "Ingress" ∷ []
types_of true false = "Ingress" ∷ []
types_of false true = "Egress" ∷ []
types_of false false = []

abbrev add : Direction → Bool → Bool → List String
add ingress i e = types_of true e
add egress i e = types_of i true

set_insert-types_of :
    (d : Direction) (i e : Bool) → set_insert compare (policy_type d) (types_of i e) ≡ add d i e
set_insert-types_of ingress true true = refl
set_insert-types_of ingress true false = refl
set_insert-types_of ingress false true = refl
set_insert-types_of ingress false false = refl
set_insert-types_of egress true true = refl
set_insert-types_of egress true false = refl
set_insert-types_of egress false true = refl
set_insert-types_of egress false false = refl

set_extend-types_of :
    (ds : List Direction) (i e : Bool)
    → set_extend compare (types_of i e) (map policy_type ds)
      ≡ types_of (i || has_direction ingress ds) (e || has_direction egress ds)
set_extend-types_of [] i e = ground arith
set_extend-types_of (ingress ∷ ds) i e =
    ap (λ set. set_extend compare set (map policy_type ds)) (set_insert-types_of ingress i e)
    ∙ ground (arith, set_extend-types_of ds true e)
set_extend-types_of (egress ∷ ds) i e =
    ap (λ set. set_extend compare set (map policy_type ds)) (set_insert-types_of egress i e)
    ∙ ground (arith, set_extend-types_of ds i true)

collect_policy_types-types_of :
    (rules : List RuleSpec) (i e : Bool)
    → collect_policy_types (types_of i e) rules
      ≡ types_of (i || any (applies ingress) rules) (e || any (applies egress) rules)
unfolding collect_policy_types
collect_policy_types-types_of [] i e = ground arith
collect_policy_types-types_of (r ∷ rs) i e =
    ap (λ set. collect_policy_types set rs) (set_extend-types_of (effective_directions r) i e)
    ∙ collect_policy_types-types_of rs (i || has_direction ingress (effective_directions r))
        (e || has_direction egress (effective_directions r))
    ∙ ground (
      arith,
      has_direction-effective_directions ingress r,
      has_direction-effective_directions egress r,
    )

-- The policy types are `Ingress` if some rule applies to ingress and `Egress` if some rule applies
-- to egress, each once and in ascending order; a rule without directions applies to both.
pub build_policy_types-types_of :
    (rules : List RuleSpec)
    → build_policy_types rules ≡ types_of (any (applies ingress) rules) (any (applies egress) rules)
unfolding build_policy_types
build_policy_types-types_of rules = collect_policy_types-types_of rules false false
