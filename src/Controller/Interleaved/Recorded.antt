-- ===== src/Controller/Interleaved/Recorded.antt =====
-- What a successful reconciliation leaves in the status when others act after each of its calls, but
-- not on the status of its CIDRPolicy.
use ipmaze.Base.{ℕ, String, ◌≡◌, ◌∙◌, Option, none, some, ok, unwrap_or, arith}
use ipmaze.Api.{CidrPolicy, CidrPolicyStatus}
use ipmaze.Libs.{Libs}
use ipmaze.World.{World}
use ipmaze.Status.{
  ReconcileStage, failed, default_status, stage_message, status_for_outcome, status_source,
  patch_status_for_outcome,
}
use ipmaze.Controller.{reconcile, Next, handle_reconcile_failure}
use ipmaze.Controller.Interleaved.{interleaved}
use ipmaze.Controller.Managed.{publish_policy_event}
use ipmaze.Controller.Recorded.{IsRecorded, Stores, IsRecorded-reconcile}
use ipmaze.Controller.Statuses.{Statuses}

module _ (L : Libs) (W : World L) (S : Statuses L W) (meddle : ℕ → W.State → W.State) where
  open L use {OwnerReference}
  open W use {State, namespace, name_any}
  open S use {status_at}

  abbrev M : World L
  M = interleaved L W meddle

  -- The others do not touch the stored status.
  abbrev LeaveStatus : String → String → Type 0
  LeaveStatus n m = (k : ℕ) (s : State) → status_at (meddle k s) n m ≡ status_at s n m

  abbrev view : State × ℕ → String → String → Option CidrPolicyStatus
  view s = status_at s.0

  Stores_lem : (n m : String) → LeaveStatus n m → Stores L M view n m
  Stores_lem n m leave = record {
    patched = λ manager status (s, k) u h. leave k _ ∙ S.patched n m manager status s u h;
    kept_by_publish = λ e r (s, k). leave k _ ∙ S.kept_by_publish e r s n m;
  }

  -- When `reconcile` succeeds on a CIDRPolicy that is not being deleted, and others do whatever they
  -- like after each single call that it makes, but do not touch the stored status of that CIDRPolicy,
  -- then that status lists exactly the CIDRs that this very run has resolved, fetched and
  -- extracted, and no error.
  pub reconcile-IsRecorded :
      (policy : CidrPolicy OwnerReference) (s : State × ℕ) (next : Next)
      → policy.metadata.deletion_timestamp ≡ none
      → ((n : String) → namespace policy ≡ some n → LeaveStatus n (name_any policy))
      → (reconcile L M policy s).0 ≡ ok next
      → IsRecorded L M view policy s ((reconcile L M policy s).1)
  reconcile-IsRecorded policy s next staying leave h =
      IsRecorded-reconcile L M view policy s next staying
        (λ n here. Stores_lem n (name_any policy) (leave n here)) h

  patch_failed-recorded :
      (policy : CidrPolicy OwnerReference) (n : String) (stage : ReconcileStage) (message : String)
      (s : State × ℕ) (u : Unit {0})
      → LeaveStatus n (name_any policy)
      → (patch_status_for_outcome L M n policy (failed stage message) s).0 ≡ ok u
      → view
          ((patch_status_for_outcome L M n policy (failed stage message) s).1)
          n
          (name_any policy)
        ≡ some (record (unwrap_or (view s n (name_any policy)) default_status) {
          last_reconciliation_error = some (stage_message stage message);
        })
  unfolding patch_status_for_outcome status_source status_for_outcome
  patch_failed-recorded policy n stage message (s, k) u leave h =
      grind (arith, S.read, S.patched, S.kept_by_get, leave)

  -- When the failure handler succeeds on a CIDRPolicy that has a namespace, and others do whatever they
  -- like after each single call that it makes, but do not touch the stored status of that CIDRPolicy,
  -- then that status keeps the time and the CIDRs of the latest success that are stored when the
  -- handler begins, and tells the stage and the message of the failure.
  pub handle_reconcile_failure-recorded :
      (policy : CidrPolicy OwnerReference) (n : String) (stage : ReconcileStage) (message : String)
      (s : State × ℕ) (u : Unit {0})
      → namespace policy ≡ some n
      → LeaveStatus n (name_any policy)
      → (handle_reconcile_failure L M policy stage message s).0 ≡ ok u
      → view ((handle_reconcile_failure L M policy stage message s).1) n (name_any policy)
        ≡ some (record (unwrap_or (view s n (name_any policy)) default_status) {
          last_reconciliation_error = some (stage_message stage message);
        })
  unfolding handle_reconcile_failure publish_policy_event
  handle_reconcile_failure-recorded policy n stage message s u here leave h =
      let patched = patch_failed-recorded policy n stage message s in
      let kept = (Stores_lem n (name_any policy) leave).kept_by_publish in
      grind (arith, patched, kept)
