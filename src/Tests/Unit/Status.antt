-- ===== src/Tests/Unit/Status.antt =====
-- status.rs, `mod tests`. The clock's reading is a fixed one.
use ipmaze.Base.{
  String, Bool, true, not, ◌≡◌, refl, ◌&&◌, ◌==◌, Option, none, some, [], ◌∷◌, is_some, string_eq,
  string_dec, option_eq, list_eq,
}
use ipmaze.Api.{CidrPolicy, CidrPolicyStatus, LabelSelector}
use ipmaze.Status.{
  reconciled, failed, status_for_outcome, succeeded, stage_message, stage_as_str, ReconcileStage,
}
use ipmaze.Tests.Crates.{test_libs}
use ipmaze.Tests.Outside.{test_world}

-- `LabelSelector::default()`
abbrev pub default_selector : LabelSelector
default_selector = record { match_labels = none; match_expressions = none }

abbrev policy_with_status : Option CidrPolicyStatus → CidrPolicy String
policy_with_status status = record {
  metadata = record {
    name = some "office-allowlist";
    namespace = none;
    uid = none;
    deletion_timestamp = none;
    labels = none;
    annotations = none;
    owner_references = none;
  };
  spec = record {
    source = record { address = "example.invalid"; pointer = none; jmes_path = "prefixes" };
    resync_schedule = none;
    target = record { pod_selector = default_selector };
    rules =
        record {
          directions = none;
          pod_selector = some default_selector;
          namespace_selector = none;
        }
        ∷ [];
  };
  status = status;
}

abbrev stored_status : Option String → CidrPolicyStatus
stored_status error = record {
  last_successful_resolution_time = some "2026-01-01T00:00:00+00:00";
  last_observed_cidrs = "10.0.0.0/24" ∷ [];
  last_reconciliation_error = error;
}

abbrev successful_outcome_clears_error_and_updates_observed_cidrs : Bool
successful_outcome_clears_error_and_updates_observed_cidrs =
    let policy = policy_with_status (some (stored_status (some "transport: timeout"))) in
    let status =
      status_for_outcome test_libs test_world 7 policy (reconciled ("192.0.2.0/24" ∷ [])) in
    status.last_observed_cidrs == "192.0.2.0/24" ∷ []
    && is_some status.last_successful_resolution_time
    && not (is_some status.last_reconciliation_error)

abbrev failed_outcome_preserves_last_good_status : Bool
failed_outcome_preserves_last_good_status =
    let policy = policy_with_status (some (stored_status none)) in
    let status =
      status_for_outcome test_libs test_world 7 policy
        (failed ReconcileStage.transport "request timed out") in
    status.last_successful_resolution_time == some "2026-01-01T00:00:00+00:00"
    && status.last_observed_cidrs == "10.0.0.0/24" ∷ []
    && status.last_reconciliation_error == some "transport: request timed out"

pub status_tests_pass :
    successful_outcome_clears_error_and_updates_observed_cidrs
      && failed_outcome_preserves_last_good_status
    ≡ true
unfolding status_for_outcome succeeded stage_message stage_as_str string_eq string_dec list_eq
    option_eq
status_tests_pass = refl
