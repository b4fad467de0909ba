-- ===== src/Controller/Overtaken.antt =====
-- controller.rs and status.rs: what others do to the stored status between the read and the patch of
-- the failure handler, which `error_policy` spawns beside the runs that follow.
use ipmaze.Base.{String, ◌≡◌, some, ok, unwrap_or, arith}
use ipmaze.Api.{CidrPolicy}
use ipmaze.Libs.{Libs}
use ipmaze.World.{World}
use ipmaze.Status.{
  ReconcileStage, failed, default_status, stage_message, status_for_outcome, status_source,
  patch_status_for_outcome,
}
use ipmaze.Controller.{handle_reconcile_failure}
use ipmaze.Controller.Managed.{publish_policy_event}
use ipmaze.Controller.Statuses.{Statuses}

-- A world in which others act after every read of a CIDRPolicy.
abbrev pub overtaken : (L : Libs) (W : World L) → (W.State → W.State) → World L
overtaken L W meddle = record W {
  get_cidr_policy = λ n m s. let (r, s') = W.get_cidr_policy n m s in (r, meddle s');
}

module _ (L : Libs) (W : World L) (S : Statuses L W) (meddle : W.State → W.State) where
  open L use {OwnerReference}
  open W use {State, namespace, name_any}
  open S use {status_at}

  patch-overtaken :
      (policy : CidrPolicy OwnerReference) (n : String) (stage : ReconcileStage) (message : String)
      (s : State) (u : Unit {0})
      → (patch_status_for_outcome L (overtaken L W meddle) n policy (failed stage message) s).0
        ≡ ok u
      → status_at
          ((patch_status_for_outcome L (overtaken L W meddle) n policy (failed stage message) s).1)
          n
          (name_any policy)
        ≡ some (record (unwrap_or (status_at s n (name_any policy)) default_status) {
          last_reconciliation_error = some (stage_message stage message);
        })
  unfolding patch_status_for_outcome status_source status_for_outcome
  patch-overtaken policy n stage message s u h = grind (arith, S.read, S.patched)

  -- The failure handler writes what it has read. When it succeeds on a CIDRPolicy that has a namespace,
  -- and others do whatever they do between its read and its patch, such as to store the status
  -- of a later success, then the stored status has the time and the CIDRs that were stored before
  -- the read, and the stage and the message of the failure.
  pub handle_reconcile_failure-overtaken :
      (policy : CidrPolicy OwnerReference) (n : String) (stage : ReconcileStage) (message : String)
      (s : State) (u : Unit {0})
      → namespace policy ≡ some n
      → (handle_reconcile_failure L (overtaken L W meddle) policy stage message s).0 ≡ ok u
      → status_at
          ((handle_reconcile_failure L (overtaken L W meddle) policy stage message s).1)
          n
          (name_any policy)
        ≡ some (record (unwrap_or (status_at s n (name_any policy)) default_status) {
          last_reconciliation_error = some (stage_message stage message);
        })
  unfolding handle_reconcile_failure publish_policy_event
  handle_reconcile_failure-overtaken policy n stage message s u here h =
      let patched = patch-overtaken policy n stage message s in
      grind (arith, patched, S.kept_by_publish)
