-- ===== src/Validation/Faults.antt =====
-- What can be wrong with a spec, by the errors of validation.rs.
use ipmaze.Base.{
  String, true, ◌≡◌, ◌≢◌, ◌⊎◌, none, some, List, [], In, err, map_option, unwrap_or, length, ◌<>◌,
}
use ipmaze.Libs.{Libs}
use ipmaze.Text.{trim, is_blank, split_whitespace}
use ipmaze.Api.{
  LabelSelectorOperator, in_values, not_in, exists, does_not_exist, LabelSelectorRequirement,
  LabelSelector, RuleSpec, CidrPolicySpec,
}
use ipmaze.Source.{normalize_source_address, SourceAddressError}
use ipmaze.Extract.{compile_query, QueryError}
use ipmaze.Validation.{
  ValidationError, invalid_source_address, invalid_jmes_path, invalid_pointer_regex,
  invalid_resync_schedule_shape, invalid_resync_schedule, empty_rules, rule_missing_selector,
  empty_directions, missing_selector_key, selector_values_required, selector_values_forbidden,
  operator_as_str,
}

-- The operators that ask for values.
abbrev pub AsksValues : LabelSelectorOperator → Type 0
AsksValues in_values = Unit
AsksValues not_in = Unit
AsksValues exists = ⊥
AsksValues does_not_exist = ⊥

module _ (L : Libs) where
  open L use {RegexError, regex_new, schedule_from_str, schedule_error_text}

  -- A requirement has a blank key; or its operator asks for values and it has none; or its operator
  -- asks for none and it lists some.
  pub data RequirementFault (r : LabelSelectorRequirement) : ValidationError L → Type 0 where
    blank_key :
        is_blank (trim r.key) ≡ true
        → RequirementFault r (missing_selector_key (operator_as_str r.operator))
    lacks_values :
        AsksValues r.operator
        → (r.values ≡ none) ⊎ (r.values ≡ some [])
        → RequirementFault r (selector_values_required r.key (operator_as_str r.operator))
    has_values :
        (AsksValues r.operator → ⊥)
        → r.values ≢ none
        → RequirementFault r (selector_values_forbidden r.key (operator_as_str r.operator))

  -- One of a selector's requirements is at fault.
  pub record SelectorFault (s : LabelSelector) (e : ValidationError L) : Type 0 where
    pub requirements : List LabelSelectorRequirement
    pub requirement : LabelSelectorRequirement
    pub listed : s.match_expressions ≡ some requirements
    pub among : In requirement requirements
    pub fault : RequirementFault requirement e

  -- A rule has no selector, or lists no direction, or has a selector that is at fault.
  pub data RuleFault (rule : RuleSpec) : ValidationError L → Type 0 where
    no_selector :
        rule.pod_selector ≡ none
        → rule.namespace_selector ≡ none
        → RuleFault rule rule_missing_selector
    no_direction : rule.directions ≡ some [] → RuleFault rule empty_directions
    in_pods :
        (s : LabelSelector) (e : ValidationError L)
        → rule.pod_selector ≡ some s
        → SelectorFault s e
        → RuleFault rule e
    in_namespaces :
        (s : LabelSelector) (e : ValidationError L)
        → rule.namespace_selector ≡ some s
        → SelectorFault s e
        → RuleFault rule e

  -- What the error of a refused spec says is so.
  pub data SpecFault (spec : CidrPolicySpec) : ValidationError L → Type 0 where
    no_rules : spec.rules ≡ [] → SpecFault spec empty_rules
    bad_address :
        (e : SourceAddressError L)
        → normalize_source_address L spec.source.address ≡ err e
        → SpecFault spec (invalid_source_address e)
    bad_pointer :
        (text : String) (e : RegexError)
        → map_option (λ p. p.regex) spec.source.pointer ≡ some text
        → regex_new text ≡ err e
        → SpecFault spec (invalid_pointer_regex e)
    bad_query :
        (e : QueryError L)
        → compile_query L spec.source.jmes_path ≡ err e
        → SpecFault spec (invalid_jmes_path e)
    bad_shape :
        length (split_whitespace (unwrap_or spec.resync_schedule "0 0 * * *")) ≢ 5
        → SpecFault spec invalid_resync_schedule_shape
    bad_schedule :
        (e : L.ScheduleError)
        → schedule_from_str ("0 " <> unwrap_or spec.resync_schedule "0 0 * * *") ≡ err e
        → SpecFault spec (invalid_resync_schedule (schedule_error_text e))
    bad_target :
        (e : ValidationError L) → SelectorFault spec.target.pod_selector e → SpecFault spec e
    bad_rule :
        (rule : RuleSpec) (e : ValidationError L)
        → In rule spec.rules
        → RuleFault rule e
        → SpecFault spec e
