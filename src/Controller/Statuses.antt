-- ===== src/Controller/Statuses.antt =====
-- What `reconcile` and the failure handler leave in the status of the CIDRPolicy.
use ipmaze.Base.{String, ◌≡◌, Option, none, some, ok, unwrap_or, arith}
use ipmaze.Api.{CidrPolicy, CidrPolicyStatus}
use ipmaze.Libs.{Libs}
use ipmaze.World.{World, Event}
use ipmaze.Status.{
  ReconcileStage, failed, default_status, stage_message, status_for_outcome, status_source,
  patch_status_for_outcome,
}
use ipmaze.Controller.{reconcile, Next, handle_reconcile_failure}
use ipmaze.Controller.Recorded.{IsRecorded, Stores, IsRecorded-reconcile}
use ipmaze.Controller.Managed.{publish_policy_event}

-- The stored status of a CIDRPolicy: a read returns it, a patch of the status subresource that
-- succeeds replaces it, and a read or an event leaves it.
pub record Statuses (L : Libs) (W : World L) : Type 0 where
  pub status_at : W.State → String → String → Option CidrPolicyStatus
  pub read :
      (n m : String) (s : W.State) (p : CidrPolicy L.OwnerReference)
      → (W.get_cidr_policy n m s).0 ≡ ok p
      → p.status ≡ status_at s n m
  pub kept_by_get :
      (n m : String) (s : W.State) (ns name : String)
      → status_at ((W.get_cidr_policy n m s).1) ns name ≡ status_at s ns name
  pub patched :
      (n m manager : String) (status : CidrPolicyStatus) (s : W.State) (u : Unit {0})
      → (W.patch_cidr_policy_status n m manager status s).0 ≡ ok u
      → status_at ((W.patch_cidr_policy_status n m manager status s).1) n m ≡ some status
  pub kept_by_publish :
      (e : Event W.ObjectReference) (r : W.ObjectReference) (s : W.State) (ns name : String)
      → status_at ((W.publish e r s).1) ns name ≡ status_at s ns name

module _ (L : Libs) (W : World L) (S : Statuses L W) where
  open L use {OwnerReference, DateTime}
  open W use {State, namespace, name_any}
  open S use {status_at}

  patch_failed :
      (policy : CidrPolicy OwnerReference) (n : String) (stage : ReconcileStage) (message : String)
      (s : State) (u : Unit {0})
      → (patch_status_for_outcome L W n policy (failed stage message) s).0 ≡ ok u
      → status_at
          ((patch_status_for_outcome L W n policy (failed stage message) s).1)
          n
          (name_any policy)
        ≡ some (record (unwrap_or (status_at s n (name_any policy)) default_status) {
          last_reconciliation_error = some (stage_message stage message);
        })
  unfolding patch_status_for_outcome status_source status_for_outcome
  patch_failed policy n stage message s u h = grind (arith, S.read, S.patched, S.kept_by_get)

  -- When the failure handler succeeds on a CIDRPolicy that has a namespace, the stored status keeps the
  -- time and the CIDRs of the latest success that are stored when it begins, and tells
  -- the stage and the message of the failure.
  handle_reconcile_failure_status :
      (policy : CidrPolicy OwnerReference) (n : String) (stage : ReconcileStage) (message : String)
      (s : State) (u : Unit {0})
      → namespace policy ≡ some n
      → (handle_reconcile_failure L W policy stage message s).0 ≡ ok u
      → status_at ((handle_reconcile_failure L W policy stage message s).1) n (name_any policy)
        ≡ some (record (unwrap_or (status_at s n (name_any policy)) default_status) {
          last_reconciliation_error = some (stage_message stage message);
        })
  unfolding handle_reconcile_failure publish_policy_event
  handle_reconcile_failure_status policy n stage message s u here h =
      let patched = patch_failed policy n stage message s in
      grind (arith, patched, S.kept_by_publish)

  status_Stores : (n m : String) → Stores L W status_at n m
  status_Stores n m = record {
    patched = S.patched n m;
    kept_by_publish = λ e r s. S.kept_by_publish e r s n m;
  }

  -- When `reconcile` succeeds on a CIDRPolicy that is not being deleted, the stored status lists exactly
  -- the CIDRs that this very run has resolved, fetched and extracted, and no error.
  reconcile-IsRecorded :
      (policy : CidrPolicy OwnerReference) (s : State) (next : Next)
      → policy.metadata.deletion_timestamp ≡ none
      → (reconcile L W policy s).0 ≡ ok next
      → IsRecorded L W status_at policy s ((reconcile L W policy s).1)
  reconcile-IsRecorded policy s next staying h =
      IsRecorded-reconcile L W status_at policy s next staying
        (λ n here. status_Stores n (name_any policy)) h
