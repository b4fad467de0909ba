-- ===== src/Controller/Errors.antt =====
-- `ReconcileError`, its stages, and the texts that thiserror derives for it and for its parts.
pub mod Stage
use ipmaze.Base.{String, ◌<>◌}
use ipmaze.Libs.{Libs}
use ipmaze.World.{World}
use ipmaze.Source.{
  SourceAddressError, FetchError, pointer_retrieval, final_retrieval, invalid_json,
  pointer_extraction_no_match, pointer_extraction_empty_capture, pointer_resolved_address,
}
use ipmaze.Source
use ipmaze.Extract.{
  QueryError, compile, ExtractionError, serialize_payload, variable_from_json, evaluate,
  result_not_array, result_element_not_string, invalid_cidr,
}
use ipmaze.Validation.{ValidationError, invalid_jmes_path}
use ipmaze.Validation
use ipmaze.NetPol.Selector.{
  RenderError, missing_namespace, missing_selector_values, unexpected_selector_values,
}
use ipmaze.Status.{ReconcileStage}

pub data ReconcileError (L : Libs) (W : World L) : Type 0 where
  validation_error : ValidationError L → ReconcileError L W
  managed_policy_collision_error : String → ReconcileError L W
  fetch_error : FetchError L → ReconcileError L W
  extract_error : ExtractionError L → ReconcileError L W
  render_error : RenderError → ReconcileError L W
  scheduling_error : String → ReconcileError L W
  kubernetes_api_error : W.KubeError → ReconcileError L W

module _ {L : Libs} where
  abbrev validation_stage : ValidationError L → ReconcileStage
  validation_stage (invalid_jmes_path _) = ReconcileStage.jmes_path_compile
  validation_stage _ = ReconcileStage.validation

  abbrev fetch_stage : FetchError L → ReconcileStage
  fetch_stage (pointer_retrieval _) = ReconcileStage.pointer_retrieval
  fetch_stage pointer_extraction_no_match = ReconcileStage.pointer_extraction
  fetch_stage pointer_extraction_empty_capture = ReconcileStage.pointer_extraction
  fetch_stage (pointer_resolved_address _) = ReconcileStage.pointer_extraction
  fetch_stage (final_retrieval _) = ReconcileStage.transport
  fetch_stage (invalid_json _) = ReconcileStage.json_decode

  abbrev extract_stage : ExtractionError L → ReconcileStage
  extract_stage (evaluate _) = ReconcileStage.jmes_path_evaluate
  extract_stage result_not_array = ReconcileStage.result_shape
  extract_stage result_element_not_string = ReconcileStage.result_shape
  extract_stage (invalid_cidr _) = ReconcileStage.cidr_validation
  extract_stage _ = ReconcileStage.jmes_path_evaluate

  unfoldable pub source_address_text : SourceAddressError L → String
  source_address_text Source.empty = "remote address must not be empty"
  source_address_text (Source.unsupported_scheme s) =
      "unsupported URL scheme `" <> (s <> "`; only http and https are allowed")
  source_address_text (Source.invalid_address s) =
      "remote address `" <> (s <> "` is neither a valid HTTP(S) URL, hostname, nor IP address")
  source_address_text (Source.invalid_url e) =
      "generated request URL is invalid: " <> L.url_error_text e

  unfoldable pub query_text : QueryError L → String
  query_text (compile e) = L.jmespath_error_text e

  unfoldable pub validation_text : ValidationError L → String
  validation_text (Validation.invalid_source_address e) = source_address_text e
  validation_text (invalid_jmes_path e) = query_text e
  validation_text (Validation.invalid_pointer_regex e) =
      "pointer regex is invalid: " <> L.regex_error_text e
  validation_text Validation.invalid_resync_schedule_shape =
      "resync schedule must use standard 5-field cron syntax"
  validation_text (Validation.invalid_resync_schedule s) = "resync schedule is invalid: " <> s
  validation_text Validation.empty_rules = "rules must not be empty"
  validation_text Validation.rule_missing_selector = "each rule must declare at least one selector"
  validation_text Validation.empty_directions = "direction list, when present, must not be empty"
  validation_text (Validation.missing_selector_key k) =
      "selector requirement `" <> (k <> "` is missing a key")
  validation_text (Validation.selector_values_required k o) =
      "selector requirement `"
      <> (k <> ("` with operator `" <> (o <> "` requires non-empty values")))
  validation_text (Validation.selector_values_forbidden k o) =
      "selector requirement `" <> (k <> ("` with operator `" <> (o <> "` must not include values")))

  unfoldable pub fetch_text : FetchError L → String
  fetch_text (pointer_retrieval _) = "unable to retrieve pointer content"
  fetch_text pointer_extraction_no_match = "pointer regex did not match the pointer response body"
  fetch_text pointer_extraction_empty_capture =
      "pointer regex must capture a non-empty first capture group"
  fetch_text (pointer_resolved_address _) = "pointer regex captured an invalid remote address"
  fetch_text (final_retrieval _) = "unable to retrieve final JSON source"
  fetch_text (invalid_json _) = "response body is not valid JSON"

  unfoldable pub extract_text : ExtractionError L → String
  extract_text (serialize_payload _) = "unable to serialize JSON payload for query evaluation"
  extract_text (variable_from_json _) = "unable to convert payload into JMESPath variable"
  extract_text (evaluate _) = "JMESPath evaluation failed"
  extract_text result_not_array = "query result must be an array"
  extract_text result_element_not_string = "query result elements must all be strings"
  extract_text (invalid_cidr s) = "invalid CIDR `" <> (s <> "`")

unfoldable pub render_text : RenderError → String
render_text missing_namespace =
    "CIDRPolicy must have a namespace before rendering a managed NetworkPolicy"
render_text (missing_selector_values k o) =
    "selector expression `" <> (k <> ("` is missing values for operator `" <> (o <> "`")))
render_text (unexpected_selector_values k o) =
    "selector expression `" <> (k <> ("` must not include values for operator `" <> (o <> "`")))

module _ {L : Libs} {W : World L} where
  -- `ReconcileError::stage`
  unfoldable pub stage : ReconcileError L W → ReconcileStage
  stage (validation_error e) = validation_stage e
  stage (managed_policy_collision_error _) = ReconcileStage.managed_policy_collision
  stage (fetch_error e) = fetch_stage e
  stage (extract_error e) = extract_stage e
  stage (render_error _) = ReconcileStage.selector_translation
  stage (scheduling_error _) = ReconcileStage.scheduling
  stage (kubernetes_api_error _) = ReconcileStage.kubernetes_api

  -- `to_string`
  unfoldable pub error_text : ReconcileError L W → String
  error_text (validation_error e) = validation_text e
  error_text (managed_policy_collision_error name) = "managed NetworkPolicy collision for " <> name
  error_text (fetch_error e) = fetch_text e
  error_text (extract_error e) = extract_text e
  error_text (render_error e) = render_text e
  error_text (scheduling_error s) = "unable to calculate next resync: " <> s
  error_text (kubernetes_api_error e) = W.kube_error_text e
