-- ===== src/Tests/Reporting.antt =====
-- status.rs and the parts of controller.rs that classify outcomes and errors.
use ipmaze.Base.{ℕ, string_eq, option_eq, list_eq, ◌≡◌, some, List, [], ◌∷◌}
use ipmaze.Text.{decimal, decimal_onto}
use ipmaze.Networking.{spec_eq, map_eq}
use ipmaze.Status.{
  ReconcileStage, ReconcileOutcome, reconciled, failed, stage_message, stage_as_str,
}
use ipmaze.Status.Outcome.{after, latest_success, latest_error, status_of, after-status}
use ipmaze.Tests.Crates.{test_libs}
use ipmaze.Tests.Outside.{test_world}
use ipmaze.Tests.Policies.{policy}

abbrev outcomes : List (ℕ × ReconcileOutcome)
outcomes =
    (9, failed ReconcileStage.transport "timeout")
    ∷ (8, reconciled ("10.0.0.0/8" ∷ []))
    ∷ (7, failed ReconcileStage.transport "timeout")
    ∷ []

after-status_example :
    ((status_of test_libs test_world
        (after test_libs test_world policy outcomes)).last_successful_resolution_time
      ≡ some "8")
    × ((status_of test_libs test_world
          (after test_libs test_world policy outcomes)).last_observed_cidrs
        ≡ "10.0.0.0/8" ∷ [])
    × ((status_of test_libs test_world
          (after test_libs test_world policy outcomes)).last_reconciliation_error
        ≡ some "transport: timeout")
unfolding latest_success latest_error stage_message stage_as_str decimal decimal_onto
after-status_example = after-status test_libs test_world policy outcomes
