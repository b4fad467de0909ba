-- ===== src/Validation/RuleFaults.antt =====
-- What is wrong with a selector or a rule that validation refuses.
use ipmaze.Base.{
  String, not, ◌≡◌, ◌⊎◌, refl, inl, inr, Option, none, some, List, [], ◌∷◌, In, err, Result-cases,
  Bool-cases, Option-cases, is_empty, is_none, ◌&&◌, keep_if, arith,
}
use mathlib.Core.Path.{subst}
use ipmaze.Libs.{Libs}
use ipmaze.Text.{trim, is_blank}
use ipmaze.Api.{
  Direction, LabelSelectorOperator, in_values, not_in, exists, does_not_exist,
  LabelSelectorRequirement, LabelSelector, RuleSpec,
}
use ipmaze.Validation.{
  ValidationError, empty_directions, require_values, forbid_values, check_operator,
  validate_selector_requirement, validate_requirements, validate_selector, validate_optional,
  validate_directions, validate_rule, validate_rules,
}
use ipmaze.Validation.Faults.{
  AsksValues, RequirementFault, blank_key, lacks_values, has_values, SelectorFault, RuleFault,
  no_selector, no_direction, in_pods, in_namespaces,
}

module _ (L : Libs) where
  lacking :
      (values : Option (List String))
      → keep_if values (λ v. not (is_empty v)) ≡ none
      → (values ≡ none) ⊎ (values ≡ some [])
  lacking none h = inl refl
  lacking (some []) h = inr refl
  lacking (some (v ∷ vs)) h = cc h

  require_values_fault :
      (r : LabelSelectorRequirement) (e : ValidationError L)
      → AsksValues r.operator
      → require_values L r ≡ err e
      → RequirementFault L r e
  unfolding require_values
  require_values_fault r e asks h = elim (Option-cases (keep_if r.values (λ v. not (is_empty v)))) [
    | inl absent ↦
        subst (RequirementFault L r) (ground arith) (lacks_values asks (lacking r.values absent))
    | inr (vs, given) ↦ absurd (ground arith)
  ]

  forbid_values_fault :
      (r : LabelSelectorRequirement) (e : ValidationError L)
      → (AsksValues r.operator → ⊥)
      → forbid_values L r ≡ err e
      → RequirementFault L r e
  unfolding forbid_values
  forbid_values_fault r e asks_none h = elim (Option-cases r.values) [
    | inl absent ↦ absurd (ground arith)
    | inr (vs, given) ↦
        subst (RequirementFault L r) (ground arith)
          (has_values asks_none (λ absent. cc (absent, given)))
  ]

  check_operator_fault :
      (o : LabelSelectorOperator) (r : LabelSelectorRequirement) (e : ValidationError L)
      → r.operator ≡ o
      → check_operator L o r ≡ err e
      → RequirementFault L r e
  unfolding check_operator
  check_operator_fault in_values r e is h = require_values_fault r e (rw is tt) h
  check_operator_fault not_in r e is h = require_values_fault r e (rw is tt) h
  check_operator_fault exists r e is h = forbid_values_fault r e (λ asks. rw is at asks) h
  check_operator_fault does_not_exist r e is h = forbid_values_fault r e (λ asks. rw is at asks) h

  requirement_fault :
      (r : LabelSelectorRequirement) (e : ValidationError L)
      → validate_selector_requirement L r ≡ err e
      → RequirementFault L r e
  unfolding validate_selector_requirement
  requirement_fault r e h = elim (Bool-cases (is_blank (trim r.key))) [
    | inl blank ↦ subst (RequirementFault L r) (ground arith) (blank_key blank)
    | inr named ↦ check_operator_fault r.operator r e refl (ground arith)
  ]

  requirements_fault :
      (rs : List LabelSelectorRequirement) (e : ValidationError L)
      → validate_requirements L rs ≡ err e
      → (r : LabelSelectorRequirement) × In r rs × RequirementFault L r e
  unfolding validate_requirements
  requirements_fault [] e h = cc h
  requirements_fault (r ∷ rs) e h = elim (Result-cases (validate_selector_requirement L r)) [
    | inr (x, bad) ↦ (r, inl refl, requirement_fault r e (ground arith))
    | inl (u, good) ↦
        let (r', among, fault) = requirements_fault rs e (ground arith) in (r', inr among, fault)
  ]

  pub selector_fault :
      (s : LabelSelector) (e : ValidationError L)
      → validate_selector L s ≡ err e
      → SelectorFault L s e
  unfolding validate_selector
  selector_fault s e h = elim (Option-cases s.match_expressions) [
    | inl absent ↦ absurd (ground arith)
    | inr (rs, listed) ↦
        let (r, among, fault) = requirements_fault rs e (ground arith) in
        record { requirements = rs; requirement = r; listed = listed; among = among; fault = fault }
  ]

  optional_fault :
      (o : Option LabelSelector) (e : ValidationError L)
      → validate_optional L o ≡ err e
      → (s : LabelSelector) × (o ≡ some s) × SelectorFault L s e
  unfolding validate_optional
  optional_fault none e h = cc h
  optional_fault (some s) e h = (s, refl, selector_fault s e h)

  directions_fault :
      (d : Option (List Direction)) (e : ValidationError L)
      → validate_directions L d ≡ err e
      → (d ≡ some []) × (empty_directions ≡ e)
  unfolding validate_directions
  directions_fault none e h = cc h
  directions_fault (some []) e h = (refl, cc h)
  directions_fault (some (d ∷ ds)) e h = cc h

  rule_fault :
      (rule : RuleSpec) (e : ValidationError L) → validate_rule L rule ≡ err e → RuleFault L rule e
  unfolding validate_rule
  rule_fault rule e h =
      elim (Bool-cases (is_none rule.pod_selector && is_none rule.namespace_selector)) [
        | inl bare ↦
            subst (RuleFault L rule) (ground arith) (no_selector (ground arith) (ground arith))
        | inr some_selector ↦ elim (Result-cases (validate_directions L rule.directions)) [
          | inr (x, bad) ↦
              let (listed, same) = directions_fault rule.directions e (ground arith) in
              subst (RuleFault L rule) same (no_direction listed)
          | inl (u, good) ↦ elim (Result-cases (validate_optional L rule.pod_selector)) [
            | inr (x, bad) ↦
                let (s, is, fault) = optional_fault rule.pod_selector e (ground arith) in
                in_pods s e is fault
            | inl (u', good') ↦
                let (s, is, fault) = optional_fault rule.namespace_selector e (ground arith) in
                in_namespaces s e is fault
          ]
        ]
      ]

  pub rules_fault :
      (rules : List RuleSpec) (e : ValidationError L)
      → validate_rules L rules ≡ err e
      → (rule : RuleSpec) × In rule rules × RuleFault L rule e
  unfolding validate_rules
  rules_fault [] e h = cc h
  rules_fault (rule ∷ rules) e h = elim (Result-cases (validate_rule L rule)) [
    | inr (x, bad) ↦ (rule, inl refl, rule_fault rule e (ground arith))
    | inl (u, good) ↦
        let (rule', among, fault) = rules_fault rules e (ground arith) in (rule', inr among, fault)
  ]
