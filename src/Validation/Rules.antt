-- ===== src/Validation/Rules.antt =====
-- When validation accepts a selector and a rule.
use ipmaze.Base.{
  String, true, false, not, ◌≡◌, ◌≢◌, ◌↔◌, ◌⊎◌, refl, Option, none, some, List, [], ◌∷◌, arith,
  is_empty, All, Result, ok, is_some, keep_if,
}
use ipmaze.Libs.{Libs}
use ipmaze.Text.{trim, is_blank}
use ipmaze.Api.{
  Direction, LabelSelectorOperator, in_values, not_in, exists, does_not_exist,
  LabelSelectorRequirement, LabelSelector, RuleSpec,
}
use ipmaze.Validation.{
  ValidationError, require_values, forbid_values, check_operator, validate_selector_requirement,
  validate_requirements, validate_selector, validate_optional, validate_directions, validate_rule,
  validate_rules,
}

-- The values that an operator asks for: some, or none at all.
abbrev pub FitsOperator : LabelSelectorOperator → Option (List String) → Type 0
FitsOperator in_values values = (v : String) × (vs : List String) × (values ≡ some (v ∷ vs))
FitsOperator not_in values = (v : String) × (vs : List String) × (values ≡ some (v ∷ vs))
FitsOperator exists values = values ≡ none
FitsOperator does_not_exist values = values ≡ none

abbrev pub IsValidRequirement : LabelSelectorRequirement → Type 0
IsValidRequirement r = (is_blank (trim r.key) ≡ false) × FitsOperator r.operator r.values

abbrev pub AreValidRequirements : Option (List LabelSelectorRequirement) → Type 0
AreValidRequirements none = Unit
AreValidRequirements (some rs) = All IsValidRequirement rs

abbrev pub IsValidSelector : LabelSelector → Type 0
IsValidSelector s = AreValidRequirements s.match_expressions

abbrev pub IsValidOptional : Option LabelSelector → Type 0
IsValidOptional none = Unit
IsValidOptional (some s) = IsValidSelector s

-- A rule constrains its peers by a selector, and names a direction if it lists directions.
pub record IsValidRule (rule : RuleSpec) : Type 0 where
  pub has_selector : (rule.pod_selector ≢ none) ⊎ (rule.namespace_selector ≢ none)
  pub has_direction : rule.directions ≢ some []
  pub pods : IsValidOptional rule.pod_selector
  pub namespaces : IsValidOptional rule.namespace_selector

required :
    (values : Option (List String))
    → is_some (keep_if values (λ v. not (is_empty v))) ≡ true
    → (v : String) × (vs : List String) × (values ≡ some (v ∷ vs))
required none k = cc
required (some []) k = cc
required (some (v ∷ vs)) k = (v, vs, refl)

module _ (L : Libs) where
  open L use {Regex, Expression, Schedule, regex_new, schedule_from_str}

  require_values-eq-ok :
      (r : LabelSelectorRequirement)
      → require_values L r ≡ ok tt
      → (v : String) × (vs : List String) × (r.values ≡ some (v ∷ vs))
  unfolding require_values
  require_values-eq-ok r h = required r.values (ground arith)

  requirement_forth :
      (o : LabelSelectorOperator) (r : LabelSelectorRequirement)
      → check_operator L o r ≡ ok tt
      → FitsOperator o r.values
  unfolding check_operator forbid_values
  requirement_forth in_values r h = require_values-eq-ok r h
  requirement_forth not_in r h = require_values-eq-ok r h
  requirement_forth exists r h = ground arith
  requirement_forth does_not_exist r h = ground arith

  requirement_back :
      (o : LabelSelectorOperator) (r : LabelSelectorRequirement)
      → FitsOperator o r.values
      → check_operator L o r ≡ ok tt
  unfolding check_operator require_values forbid_values
  requirement_back in_values r h = ground arith
  requirement_back not_in r h = ground arith
  requirement_back exists r h = ground arith
  requirement_back does_not_exist r h = ground arith

  validate_selector_requirement_iff :
      (r : LabelSelectorRequirement)
      → (validate_selector_requirement L r ≡ ok tt) ↔ IsValidRequirement r
  unfolding validate_selector_requirement
  validate_selector_requirement_iff r = (
    λ h. (ground arith, requirement_forth r.operator r (ground arith)),
    λ h. ground (arith, requirement_back r.operator r h.1),
  )

  validate_requirements_iff :
      (rs : List LabelSelectorRequirement)
      → (validate_requirements L rs ≡ ok tt) ↔ All IsValidRequirement rs
  unfolding validate_requirements
  validate_requirements_iff [] = (λ _. tt, λ _. refl)
  validate_requirements_iff (r ∷ rs) = (
    λ h. (
      (validate_selector_requirement_iff r).0 (ground arith),
      (validate_requirements_iff rs).0 (ground arith),
    ),
    λ h.
        ground (
          arith,
          (validate_selector_requirement_iff r).1 h.0,
          (validate_requirements_iff rs).1 h.1,
        ),
  )

  pub validate_selector_iff :
      (s : LabelSelector) → (validate_selector L s ≡ ok tt) ↔ IsValidSelector s
  unfolding validate_selector
  validate_selector_iff s = go s.match_expressions
    where
      go :
          (m : Option (List LabelSelectorRequirement))
          → (◌≡◌ {A = Result (Unit {0}) (ValidationError L)}
              (elim m [ none ↦ ok tt | some requirements ↦ validate_requirements L requirements ])
              (ok tt))
            ↔ AreValidRequirements m
      go none = (λ _. tt, λ _. refl)
      go (some rs) = validate_requirements_iff rs

  validate_optional_iff :
      (o : Option LabelSelector) → (validate_optional L o ≡ ok tt) ↔ IsValidOptional o
  unfolding validate_optional
  validate_optional_iff none = (λ _. tt, λ _. refl)
  validate_optional_iff (some s) = validate_selector_iff s

  validate_directions_iff :
      (d : Option (List Direction)) → (validate_directions L d ≡ ok tt) ↔ (d ≢ some [])
  unfolding validate_directions
  validate_directions_iff none = (λ _ e. cc, λ _. refl)
  validate_directions_iff (some []) = (λ h. cc, λ h. absurd (h refl))
  validate_directions_iff (some (d ∷ ds)) = (λ _ e. cc, λ _. refl)

  validate_rule_iff : (rule : RuleSpec) → (validate_rule L rule ≡ ok tt) ↔ IsValidRule rule
  unfolding validate_rule
  validate_rule_iff rule = (
    λ h. record {
      has_selector = ground arith;
      has_direction = (validate_directions_iff rule.directions).0 (ground arith);
      pods = (validate_optional_iff rule.pod_selector).0 (ground arith);
      namespaces = (validate_optional_iff rule.namespace_selector).0 (ground arith);
    },
    λ h. ground (
      arith,
      h.has_selector,
      (validate_directions_iff rule.directions).1 h.has_direction,
      (validate_optional_iff rule.pod_selector).1 h.pods,
      (validate_optional_iff rule.namespace_selector).1 h.namespaces,
    ),
  )

  pub validate_rules_iff :
      (rules : List RuleSpec) → (validate_rules L rules ≡ ok tt) ↔ All IsValidRule rules
  unfolding validate_rules
  validate_rules_iff [] = (λ _. tt, λ _. refl)
  validate_rules_iff (r ∷ rs) = (
    λ h. ((validate_rule_iff r).0 (ground arith), (validate_rules_iff rs).0 (ground arith)),
    λ h. ground (arith, (validate_rule_iff r).1 h.0, (validate_rules_iff rs).1 h.1),
  )
