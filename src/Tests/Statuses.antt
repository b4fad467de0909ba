-- ===== src/Tests/Statuses.antt =====
-- What a success and a failure leave in the status of one policy.
use ipmaze.Base.{◌≡◌, refl, Option, none, some, [], ◌∷◌, ok, and_then, arith, string_eq}
use ipmaze.Api.{CidrPolicyStatus}
use ipmaze.Status.{
  ReconcileStage, stage_message, stage_as_str, patch_status_for_outcome, status_source,
  status_for_outcome,
}
use ipmaze.Controller.{reconcile, requeue, handle_reconcile_failure}
use ipmaze.Controller.Managed.{publish_policy_event}
use ipmaze.Controller.Statuses.{Statuses}
use ipmaze.Controller.Recorded.{IsRecorded}
use ipmaze.Controller.Interleaved.Recorded.{reconcile-IsRecorded, handle_reconcile_failure-recorded}
use ipmaze.Tests.Interleaved.{meddle, busy, empty, reconciles_busy}
use ipmaze.World.{World}
use ipmaze.Controller.Overtaken.{overtaken, handle_reconcile_failure-overtaken}
use ipmaze.Tests.Crates.{test_libs}
use ipmaze.Tests.Outside.{test_world, TestState}
use ipmaze.Tests.Policies.{policy}
use ipmaze.Tests.Reconciling.{start}

abbrev stored_status : TestState → Option CidrPolicyStatus
stored_status s = and_then s.source (λ p. p.status)

abbrev test_statuses : Statuses test_libs test_world
test_statuses = record {
  status_at = λ s ns name. stored_status s;
  read = λ n m s p h. ground arith;
  kept_by_get = λ n m s ns name. ground arith;
  patched = λ n m manager status s u h. ground arith;
  kept_by_publish = λ e r s ns name. refl;
}

-- Others pass the time and add NetworkPolicies after each call.
reconcile-IsRecorded_example :
    IsRecorded test_libs busy
      (λ s ns name. stored_status s.0)
      policy
      empty
      ((reconcile test_libs busy policy empty).1)
reconcile-IsRecorded_example =
    reconcile-IsRecorded test_libs test_world test_statuses meddle policy empty (requeue 1) refl
      (λ n here k s. refl) reconciles_busy

-- A failure after a success.
abbrev success : CidrPolicyStatus
success = record {
  last_successful_resolution_time = some "3";
  last_observed_cidrs = "10.0.0.0/8" ∷ [];
  last_reconciliation_error = none;
}

abbrev succeeded_before : TestState
succeeded_before = record start { source = some (record policy { status = some success }) }

handles_busy :
    (handle_reconcile_failure test_libs busy policy ReconcileStage.transport "timeout"
      (succeeded_before, 0)).0
    ≡ ok tt
unfolding handle_reconcile_failure patch_status_for_outcome status_source status_for_outcome
    publish_policy_event
handles_busy = refl

handle_reconcile_failure-recorded_example :
    stored_status (
      (handle_reconcile_failure test_libs busy policy ReconcileStage.transport "timeout"
        (succeeded_before, 0)).1.0)
    ≡ some (record success { last_reconciliation_error = some "transport: timeout" })
unfolding stage_message stage_as_str
handle_reconcile_failure-recorded_example =
    handle_reconcile_failure-recorded test_libs test_world test_statuses meddle policy "default"
      ReconcileStage.transport "timeout" (succeeded_before, 0) tt refl (λ k s. refl) handles_busy

-- A later run succeeds and stores its status while the failure handler is under way.
abbrev store_later : TestState → TestState
store_later s = record s {
  source = some (record policy {
    status = some (record {
      last_successful_resolution_time = some "9";
      last_observed_cidrs = "10.0.0.0/8" ∷ "192.0.2.0/24" ∷ [];
      last_reconciliation_error = none;
    });
  });
}

abbrev hurried : World test_libs
hurried = overtaken test_libs test_world store_later

handles_hurried :
    (handle_reconcile_failure test_libs hurried policy ReconcileStage.transport "timeout"
      succeeded_before).0
    ≡ ok tt
unfolding handle_reconcile_failure patch_status_for_outcome status_source status_for_outcome
    publish_policy_event
handles_hurried = refl

handle_reconcile_failure-overtaken_example :
    stored_status (
      (handle_reconcile_failure test_libs hurried policy ReconcileStage.transport "timeout"
        succeeded_before).1)
    ≡ some (record success { last_reconciliation_error = some "transport: timeout" })
unfolding stage_message stage_as_str
handle_reconcile_failure-overtaken_example =
    handle_reconcile_failure-overtaken test_libs test_world test_statuses store_later policy
      "default" ReconcileStage.transport "timeout" succeeded_before tt refl handles_hurried
