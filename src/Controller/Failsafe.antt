-- ===== src/Controller/Failsafe.antt =====
-- A reconciliation that fails before it writes leaves the NetworkPolicies as they are.
use ipmaze.Base.{String, ◌≡◌, ◌≢◌, List, err, inl, inr, Bool-cases, is_some, arith}
use ipmaze.Base.Action.{◌>>=◌}
use ipmaze.Api.{CidrPolicy}
use ipmaze.Networking.{NetworkPolicy}
use ipmaze.Libs.{Libs}
use ipmaze.World.{World}
use ipmaze.Validation.{ValidatedPolicy}
use ipmaze.Status.{ReconcileStage}
use ipmaze.Controller.{prepare, settle, cleanup, reconcile}
use ipmaze.Controller.Cluster.{Cluster}
use ipmaze.Controller.Cluster.Keeps.{get_managed_network_policy-Keeps}
use ipmaze.Controller.Safety.{prepare-Keeps}
use ipmaze.Controller.Errors.{ReconcileError, stage}
use ipmaze.Controller.Managed.{
  get_managed_network_policy, delete_managed_network_policy, deletion_result,
}
use ipmaze.Controller.Requeue.{schedule_requeue_after}

module _ (L : Libs) (W : World L) (C : Cluster L W) where
  open L use {OwnerReference}
  open W use {State, namespace}
  open C use {netpol_at}

  -- The error of a step that comes before any write.
  abbrev pub IsEarly : ReconcileError L W → Type 0
  IsEarly e = (stage e ≢ ReconcileStage.scheduling) × (stage e ≢ ReconcileStage.kubernetes_api)

  settle_early :
      (policy : CidrPolicy OwnerReference) (v : ValidatedPolicy L)
      (rendered : NetworkPolicy OwnerReference) (observed : List String) (n : String) (s : State)
      (e : ReconcileError L W) (ns name : String)
      → (settle L W policy (v, rendered, observed, n) s).0 ≡ err e
      → IsEarly e
      → netpol_at ((settle L W policy (v, rendered, observed, n) s).1) ns name ≡ netpol_at s ns name
  unfolding settle schedule_requeue_after stage
  settle_early policy v rendered observed n s e ns name h early =
      let got =
        get_managed_network_policy-Keeps L W C (λ _ _. Unit) n policy "Reconcile" s ns name tt in
      grind arith

  cleanup_early :
      (policy : CidrPolicy OwnerReference) (s : State) (e : ReconcileError L W) (ns name : String)
      → (cleanup L W policy s).0 ≡ err e
      → IsEarly e
      → netpol_at ((cleanup L W policy s).1) ns name ≡ netpol_at s ns name
  unfolding cleanup delete_managed_network_policy deletion_result stage
  cleanup_early policy s e ns name h early =
      let got : (n : String)
          → netpol_at ((get_managed_network_policy L W n policy "Cleanup" s).1) ns name
            ≡ netpol_at s ns name =
        λ n. get_managed_network_policy-Keeps L W C (λ _ _. Unit) n policy "Cleanup" s ns name tt in
      grind (arith, got)

  update_early :
      (policy : CidrPolicy OwnerReference) (s : State) (e : ReconcileError L W) (ns name : String)
      → ((prepare L W policy >>= settle L W policy) s).0 ≡ err e
      → IsEarly e
      → netpol_at (((prepare L W policy >>= settle L W policy) s).1) ns name ≡ netpol_at s ns name
  update_early policy s e ns name h early =
      let prepared = prepare-Keeps L W C (λ _ _. Unit) policy s ns name tt in
      let settled : (made : ValidatedPolicy L × NetworkPolicy OwnerReference × List String × String)
            (s₁ : State)
          → (settle L W policy made s₁).0 ≡ err e
          → netpol_at ((settle L W policy made s₁).1) ns name ≡ netpol_at s₁ ns name =
        λ (v, np, observed, n) s₁ k. settle_early policy v np observed n s₁ e ns name k early in
      grind (arith, settled)

  -- When `reconcile` ends in an error that the controller reports under any stage but `scheduling`
  -- and `kubernetes-api`, every NetworkPolicy is what it was.
  pub reconcile_early :
      (policy : CidrPolicy OwnerReference) (s : State) (e : ReconcileError L W) (ns name : String)
      → (reconcile L W policy s).0 ≡ err e
      → stage e ≢ ReconcileStage.scheduling
      → stage e ≢ ReconcileStage.kubernetes_api
      → netpol_at ((reconcile L W policy s).1) ns name ≡ netpol_at s ns name
  unfolding reconcile
  reconcile_early policy s e ns name h a b =
      elim (Bool-cases (is_some policy.metadata.deletion_timestamp)) [
        | inl going ↦
            let kept : (cleanup L W policy s).0 ≡ err e
                → netpol_at ((cleanup L W policy s).1) ns name ≡ netpol_at s ns name =
              λ k. cleanup_early policy s e ns name k (a, b) in
            grind arith
        | inr staying ↦ let kept = update_early policy s e ns name in grind arith
      ]
