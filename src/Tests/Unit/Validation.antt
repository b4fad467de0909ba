-- ===== src/Tests/Unit/Validation.antt =====
-- validation.rs, `mod tests`. What the crates refuse in the tests, those made for the tests do too.
use ipmaze.Base.{
  String, Bool, true, false, not, ◌≡◌, refl, err, ◌&&◌, ◌==◌, ◌<>◌, Option, none, some, List, [],
  ◌∷◌, is_some, string_eq, string_dec, option_eq, list_eq,
}
use ipmaze.Text.{trim, trim_start, trim_end, is_whitespace, split, last_char, split_whitespace}
use ipmaze.Api.{CidrPolicySpec, LabelSelector, RuleSpec, LabelSelectorOperator, in_values, exists}
use ipmaze.Extract.{compile_query}
use ipmaze.Source.{normalize_source_address, of_trimmed, of_bare, with_url}
use ipmaze.Source.Hostname.{is_valid_hostname, is_valid_hostname_label, is_ascii_alphanumeric}
use ipmaze.Validation.{
  ValidationError, default_resync_schedule, invalid_resync_schedule_shape, invalid_jmes_path,
  invalid_pointer_regex, invalid_resync_schedule, rule_missing_selector, selector_values_required,
  selector_values_forbidden, require_values, check_operator, forbid_values, operator_as_str,
  validate_selector_requirement, validate_requirements, validate_selector, validate_optional,
  validate_directions, validate_rule, validate_rules, validate_pointer_regex,
  validate_resync_schedule, validate_spec,
}
use ipmaze.Validation.Faults.{SpecFault}
use ipmaze.Validation.Refused.{validate_spec-SpecFault}
use ipmaze.Tests.Crates.{test_libs}
use ipmaze.Tests.Unit.{unwrap_and, unwrap_err_and}
use ipmaze.Tests.Unit.Status.{default_selector}

abbrev rule_with : Option LabelSelector → RuleSpec
rule_with selector = record {
  directions = none;
  pod_selector = selector;
  namespace_selector = none;
}

abbrev trusted_selector : LabelSelector
trusted_selector = record {
  match_labels = some (("access-tier", "trusted") ∷ []);
  match_expressions = none;
}

abbrev base_spec : CidrPolicySpec
base_spec = record {
  source = record { address = "example.invalid"; pointer = none; jmes_path = "prefixes" };
  resync_schedule = none;
  target = record { pod_selector = default_selector };
  rules = rule_with (some trusted_selector) ∷ [];
}

abbrev valid_spec_is_accepted : Bool
valid_spec_is_accepted = unwrap_and (validate_spec test_libs base_spec) (λ validated.
    validated.source_address.request_url.text == "https://example.invalid/"
    && not (is_some validated.pointer_regex)
    && validated.resync_schedule == "0 " <> default_resync_schedule)

-- `matches!`
abbrev is_missing_selector : ValidationError test_libs → Bool
is_missing_selector rule_missing_selector = true
is_missing_selector _ = false

abbrev is_required : String → ValidationError test_libs → Bool
is_required operator (selector_values_required _ found) = found == operator
is_required operator _ = false

abbrev is_forbidden : String → ValidationError test_libs → Bool
is_forbidden operator (selector_values_forbidden _ found) = found == operator
is_forbidden operator _ = false

abbrev is_wrong_shape : ValidationError test_libs → Bool
is_wrong_shape invalid_resync_schedule_shape = true
is_wrong_shape _ = false

abbrev is_invalid_jmes_path : ValidationError test_libs → Bool
is_invalid_jmes_path (invalid_jmes_path _) = true
is_invalid_jmes_path _ = false

abbrev is_invalid_pointer_regex : ValidationError test_libs → Bool
is_invalid_pointer_regex (invalid_pointer_regex _) = true
is_invalid_pointer_regex _ = false

abbrev is_invalid_resync_schedule : ValidationError test_libs → Bool
is_invalid_resync_schedule (invalid_resync_schedule _) = true
is_invalid_resync_schedule _ = false

abbrev invalid_jmespath_is_rejected : Bool
invalid_jmespath_is_rejected =
    unwrap_err_and
      (validate_spec test_libs
        (record base_spec { source = record base_spec.source { jmes_path = "[" } }))
      is_invalid_jmes_path

abbrev rule_without_selectors_is_rejected : Bool
rule_without_selectors_is_rejected =
    unwrap_err_and (validate_spec test_libs (record base_spec { rules = rule_with none ∷ [] }))
      is_missing_selector

-- The spec whose rule has one requirement.
abbrev requiring : LabelSelectorOperator → Option (List String) → CidrPolicySpec
requiring operator values = record base_spec {
  rules =
      rule_with (
        some (record {
          match_labels = none;
          match_expressions =
              some (record { key = "environment"; operator = operator; values = values } ∷ []);
        }))
      ∷ [];
}

abbrev selector_values_are_enforced_for_in_operator : Bool
selector_values_are_enforced_for_in_operator =
    unwrap_err_and (validate_spec test_libs (requiring in_values none)) (is_required "In")

abbrev selector_values_are_forbidden_for_exists_operator : Bool
selector_values_are_forbidden_for_exists_operator =
    unwrap_err_and (validate_spec test_libs (requiring exists (some ("prod" ∷ []))))
      (is_forbidden "Exists")

abbrev invalid_resync_schedule_shape_is_rejected : Bool
invalid_resync_schedule_shape_is_rejected =
    unwrap_err_and
      (validate_spec test_libs (record base_spec { resync_schedule = some "0 0 * * * *" }))
      is_wrong_shape

abbrev invalid_resync_schedule_is_rejected : Bool
invalid_resync_schedule_is_rejected =
    unwrap_err_and
      (validate_spec test_libs (record base_spec { resync_schedule = some "0 0 32 * *" }))
      is_invalid_resync_schedule

abbrev with_pointer : String → CidrPolicySpec
with_pointer regex = record base_spec {
  source = record base_spec.source { pointer = some (record { regex = regex }) };
}

abbrev invalid_pointer_regex_is_rejected : Bool
invalid_pointer_regex_is_rejected =
    unwrap_err_and (validate_spec test_libs (with_pointer "(")) is_invalid_pointer_regex

abbrev valid_pointer_regex_is_compiled : Bool
valid_pointer_regex_is_compiled =
    unwrap_and (validate_spec test_libs (with_pointer "endpoint=(https://[^\"\\s]+)"))
      (λ validated. is_some validated.pointer_regex)

pub validation_tests_pass :
    valid_spec_is_accepted && rule_without_selectors_is_rejected
      && selector_values_are_enforced_for_in_operator
      && selector_values_are_forbidden_for_exists_operator && invalid_jmespath_is_rejected
      && invalid_pointer_regex_is_rejected && invalid_resync_schedule_is_rejected
      && invalid_resync_schedule_shape_is_rejected && valid_pointer_regex_is_compiled
    ≡ true
unfolding validate_spec validate_rules validate_rule validate_optional validate_directions
    validate_selector validate_requirements validate_selector_requirement check_operator
    operator_as_str require_values validate_pointer_regex validate_resync_schedule compile_query
    normalize_source_address of_trimmed of_bare with_url trim trim_start trim_end is_whitespace
    split split_whitespace last_char is_valid_hostname is_valid_hostname_label is_ascii_alphanumeric
    string_eq string_dec list_eq option_eq forbid_values
validation_tests_pass = refl

-- The error of the test on operators, and what is wrong with its spec.
refuses :
    validate_spec test_libs (requiring in_values none)
    ≡ err (selector_values_required "environment" "In")
unfolding validate_spec validate_rules validate_rule validate_optional validate_directions
    validate_selector validate_requirements validate_selector_requirement check_operator
    operator_as_str require_values validate_pointer_regex validate_resync_schedule compile_query
    normalize_source_address of_trimmed of_bare with_url trim trim_start trim_end is_whitespace
    split split_whitespace last_char is_valid_hostname is_valid_hostname_label is_ascii_alphanumeric
    string_eq string_dec list_eq option_eq forbid_values
refuses = refl

validate_spec-SpecFault_example :
    SpecFault test_libs (requiring in_values none) (selector_values_required "environment" "In")
validate_spec-SpecFault_example =
    validate_spec-SpecFault test_libs (requiring in_values none)
      (selector_values_required "environment" "In") refuses
