-- ===== src/Validation.antt =====
-- validation.rs
pub mod Rules
pub mod Faults
pub mod RuleFaults
pub mod Refused
pub mod Sound
use ipmaze.Base.{
  String, Bool, true, false, ◌&&◌, Option, none, some, List, [], ◌∷◌, length, is_empty, Result, ok,
  err, ◌>>=◌, ◌>>◌, map_err, map_option, unwrap_or, is_some, is_none, keep_if, not, ◌=ℕ◌,
  if◌then◌else◌, ◌<>◌,
}
use ipmaze.Libs.{Libs}
use ipmaze.Text.{trim, is_blank, split_whitespace}
use ipmaze.Api.{
  Direction, ingress, egress, LabelSelectorOperator, in_values, not_in, exists, does_not_exist,
  LabelSelectorRequirement, LabelSelector, RuleSpec, CidrPolicySpec, CidrPolicy,
}
use ipmaze.Source.{NormalizedRemoteAddress, SourceAddressError, normalize_source_address}
use ipmaze.Extract.{QueryError, compile_query}

abbrev pub default_resync_schedule : String
default_resync_schedule = "0 0 * * *"

pub record ValidatedPolicy (L : Libs) : Type 0 where
  pub source_address : NormalizedRemoteAddress L
  pub pointer_regex : Option L.Regex
  pub resync_schedule : L.Schedule

pub data ValidationError (L : Libs) : Type 0 where
  invalid_source_address : SourceAddressError L → ValidationError L
  invalid_jmes_path : QueryError L → ValidationError L
  invalid_pointer_regex : L.RegexError → ValidationError L
  invalid_resync_schedule_shape : ValidationError L
  invalid_resync_schedule : String → ValidationError L
  empty_rules : ValidationError L
  rule_missing_selector : ValidationError L
  empty_directions : ValidationError L
  missing_selector_key : String → ValidationError L
  selector_values_required : String → String → ValidationError L
  selector_values_forbidden : String → String → ValidationError L

-- `LabelSelectorOperator::as_str`
unfoldable pub operator_as_str : LabelSelectorOperator → String
operator_as_str in_values = "In"
operator_as_str not_in = "NotIn"
operator_as_str exists = "Exists"
operator_as_str does_not_exist = "DoesNotExist"

module _ (L : Libs) where
  open L use {Regex, Schedule, regex_new, schedule_from_str, schedule_error_text}

  -- The arms `In | NotIn` and `Exists | DoesNotExist`.
  unfoldable pub require_values : LabelSelectorRequirement → Result (Unit {0}) (ValidationError L)
  require_values r = elim (keep_if r.values (λ values. not (is_empty values))) [
    | some _ ↦ ok tt
    | none ↦ err (selector_values_required r.key (operator_as_str r.operator))
  ]

  unfoldable pub forbid_values : LabelSelectorRequirement → Result (Unit {0}) (ValidationError L)
  forbid_values r =
      if is_some r.values
      then err (selector_values_forbidden r.key (operator_as_str r.operator))
      else ok tt

  unfoldable pub check_operator :
      LabelSelectorOperator → LabelSelectorRequirement → Result (Unit {0}) (ValidationError L)
  check_operator in_values r = require_values r
  check_operator not_in r = require_values r
  check_operator exists r = forbid_values r
  check_operator does_not_exist r = forbid_values r

  unfoldable pub validate_selector_requirement :
      LabelSelectorRequirement → Result (Unit {0}) (ValidationError L)
  validate_selector_requirement r =
      if is_blank (trim r.key)
      then err (missing_selector_key (operator_as_str r.operator))
      else check_operator r.operator r

  unfoldable pub validate_requirements :
      List LabelSelectorRequirement → Result (Unit {0}) (ValidationError L)
  validate_requirements [] = ok tt
  validate_requirements (r ∷ rs) = validate_selector_requirement r >> validate_requirements rs

  unfoldable pub validate_selector : LabelSelector → Result (Unit {0}) (ValidationError L)
  validate_selector selector = elim selector.match_expressions [
    | none ↦ ok tt
    | some requirements ↦ validate_requirements requirements
  ]

  -- `if let Some(selector) = ... { validate_selector(selector)?; }`
  unfoldable pub validate_optional : Option LabelSelector → Result (Unit {0}) (ValidationError L)
  validate_optional none = ok tt
  validate_optional (some selector) = validate_selector selector

  -- The loop over the directions of a list checks nothing: both variants pass.
  unfoldable pub validate_directions :
      Option (List Direction) → Result (Unit {0}) (ValidationError L)
  validate_directions none = ok tt
  validate_directions (some directions) =
      if is_empty directions then err empty_directions else ok tt

  unfoldable pub validate_rule : RuleSpec → Result (Unit {0}) (ValidationError L)
  validate_rule rule =
      if is_none rule.pod_selector && is_none rule.namespace_selector
      then err rule_missing_selector
      else do
        validate_directions rule.directions
        validate_optional rule.pod_selector
        validate_optional rule.namespace_selector

  unfoldable pub validate_rules : List RuleSpec → Result (Unit {0}) (ValidationError L)
  validate_rules [] = ok tt
  validate_rules (rule ∷ rules) = validate_rule rule >> validate_rules rules

  unfoldable pub validate_pointer_regex : Option String → Result (Option Regex) (ValidationError L)
  validate_pointer_regex none = ok none
  validate_pointer_regex (some text) = elim (regex_new text) [
    | ok regex ↦ ok (some regex)
    | err e ↦ err (invalid_pointer_regex e)
  ]

  unfoldable pub validate_resync_schedule : Option String → Result Schedule (ValidationError L)
  validate_resync_schedule given =
      let schedule = unwrap_or given default_resync_schedule in
      if not (length (split_whitespace schedule) =ℕ 5)
      then err invalid_resync_schedule_shape
      else map_err (λ e. invalid_resync_schedule (schedule_error_text e))
          (schedule_from_str ("0 " <> schedule))

  unfoldable pub validate_spec : CidrPolicySpec → Result (ValidatedPolicy L) (ValidationError L)
  validate_spec spec = if is_empty spec.rules then err empty_rules else do
    address ← map_err invalid_source_address (normalize_source_address L spec.source.address)
    regex ← validate_pointer_regex (map_option (λ p. p.regex) spec.source.pointer)
    _ ← map_err invalid_jmes_path (compile_query L spec.source.jmes_path)
    schedule ← validate_resync_schedule spec.resync_schedule
    validate_selector spec.target.pod_selector
    validate_rules spec.rules
    ok (record { source_address = address; pointer_regex = regex; resync_schedule = schedule })

  unfoldable pub validate_policy :
      CidrPolicy L.OwnerReference → Result (ValidatedPolicy L) (ValidationError L)
  validate_policy policy = validate_spec policy.spec
