-- ===== src/Controller/Safety.antt =====
-- Which NetworkPolicy objects a run of the reconciler can change.
use ipmaze.Base.{String, ◌≡◌, ◌≢◌, ◌⊎◌, refl, Option, some, List, arith}
use ipmaze.Api.{CidrPolicy, managed_network_policy_name}
use ipmaze.Networking.{NetworkPolicy}
use ipmaze.Libs.{Libs}
use ipmaze.World.{World, EventType}
use ipmaze.Source.{NormalizedRemoteAddress}
use ipmaze.Source.Resolve.{fetch_json, resolve_final_source}
use ipmaze.Validation.{ValidatedPolicy}
use ipmaze.Status.{ReconcileOutcome, reconciled, no_change, failed, patch_status_for_outcome}
use ipmaze.Controller.{prepare, settle, cleanup, apply_outcome, publish_outcome_event}
use ipmaze.Controller.Cluster.{Cluster}
use ipmaze.Controller.Cluster.Keeps.{
  Keeps, fetch_json-Keeps, resolve_final_source-Keeps, publish_policy_event-Keeps,
  patch_status_for_outcome-Keeps, get_managed_network_policy-Keeps,
}
use ipmaze.Controller.Requeue.{schedule_requeue_after}
use ipmaze.Controller.Managed.{
  publish_policy_event, get_managed_network_policy, delete_managed_network_policy,
  apply_managed_network_policy, name_or_default,
}

module _ (L : Libs) (W : World L) (C : Cluster L W) where
  open L use {OwnerReference}
  open W use {State, KubeError, namespace}
  open C use {netpol_at}

  module _ (P : String → String → Type 0) where
    pub prepare-Keeps : (policy : CidrPolicy OwnerReference) → Keeps L W C P (prepare L W policy)
    unfolding prepare
    prepare-Keeps policy s ns name inside =
        let resolved : (base : NormalizedRemoteAddress L) (pointer : Option L.Regex) (s₁ : State)
            → netpol_at ((resolve_final_source L W base pointer s₁).1) ns name
              ≡ netpol_at s₁ ns name =
          λ base pointer s₁. resolve_final_source-Keeps L W C P base pointer s₁ ns name inside in
        let fetched : (a : NormalizedRemoteAddress L) (s₁ : State)
            → netpol_at ((fetch_json L W a s₁).1) ns name ≡ netpol_at s₁ ns name =
          λ a s₁. fetch_json-Keeps L W C P a s₁ ns name inside in
        grind (arith, resolved, fetched)

    pub publish_outcome_event-Keeps :
        (policy : CidrPolicy OwnerReference) (managed : Option (NetworkPolicy OwnerReference))
        (outcome : ReconcileOutcome)
        → Keeps L W C P (publish_outcome_event L W policy managed outcome)
    unfolding publish_outcome_event
    publish_outcome_event-Keeps policy managed (reconciled observed) s ns name inside =
        publish_policy_event-Keeps L W C P policy EventType.normal _ _ _ managed s ns name inside
    publish_outcome_event-Keeps policy managed (no_change observed) s ns name inside = refl
    publish_outcome_event-Keeps policy managed (failed stage message) s ns name inside = refl

    -- The region leaves out the object that the policy manages.
    abbrev pub Elsewhere : CidrPolicy OwnerReference → Type 0
    Elsewhere policy =
        (ns name : String)
        → P ns name
        → (n : String) → namespace policy ≡ some n
        → (ns ≢ n) ⊎ (name ≢ managed_network_policy_name policy)

    pub cleanup-Keeps :
        (policy : CidrPolicy OwnerReference) → Elsewhere policy → Keeps L W C P (cleanup L W policy)
    unfolding cleanup delete_managed_network_policy publish_policy_event
    cleanup-Keeps policy away s ns name inside =
        let got : (n : String) (s₁ : State)
            → netpol_at ((get_managed_network_policy L W n policy "Cleanup" s₁).1) ns name
              ≡ netpol_at s₁ ns name =
          λ n s₁. get_managed_network_policy-Keeps L W C P n policy "Cleanup" s₁ ns name inside in
        let deleted : (n : String) (s₁ : State)
            → namespace policy ≡ some n
            → netpol_at ((W.delete_network_policy n (managed_network_policy_name policy) s₁).1) ns
                name
              ≡ netpol_at s₁ ns name =
          λ n s₁ here.
            C.kept_by_delete n (managed_network_policy_name policy) s₁ ns name
              (away ns name inside n here) in
        grind (arith, got, deleted, C.kept_by_publish)

    pub apply_outcome-Keeps :
        (policy : CidrPolicy OwnerReference) (n : String) (rendered : NetworkPolicy OwnerReference)
        (outcome : ReconcileOutcome)
        → Elsewhere policy
        → namespace policy ≡ some n
        → rendered.metadata.name ≡ some (managed_network_policy_name policy)
        → Keeps L W C P (apply_outcome L W n rendered outcome)
    unfolding apply_outcome apply_managed_network_policy
    apply_outcome-Keeps policy n rendered (reconciled observed) away here named s ns name inside =
        C.kept_by_apply n (name_or_default rendered.metadata.name) _ rendered s ns name
          (rw named (away ns name inside n here))
    apply_outcome-Keeps policy n rendered (no_change observed) away here named s ns name inside =
        refl
    apply_outcome-Keeps policy n rendered (failed stage message) away here named s ns name inside =
        refl

    pub settle-Keeps :
        (policy : CidrPolicy OwnerReference) (v : ValidatedPolicy L)
        (rendered : NetworkPolicy OwnerReference) (observed : List String) (n : String)
        → Elsewhere policy
        → namespace policy ≡ some n
        → rendered.metadata.name ≡ some (managed_network_policy_name policy)
        → Keeps L W C P (settle L W policy (v, rendered, observed, n))
    unfolding settle schedule_requeue_after
    settle-Keeps policy v rendered observed n away here named s ns name inside =
        let got : (s₁ : State)
            → netpol_at ((get_managed_network_policy L W n policy "Reconcile" s₁).1) ns name
              ≡ netpol_at s₁ ns name =
          λ s₁. get_managed_network_policy-Keeps L W C P n policy "Reconcile" s₁ ns name inside in
        let applied : (outcome : ReconcileOutcome) (s₁ : State)
            → netpol_at ((apply_outcome L W n rendered outcome s₁).1) ns name
              ≡ netpol_at s₁ ns name =
          λ outcome s₁.
            apply_outcome-Keeps policy n rendered outcome away here named s₁ ns name inside in
        let patched : (outcome : ReconcileOutcome) (s₁ : State)
            → netpol_at ((patch_status_for_outcome L W n policy outcome s₁).1) ns name
              ≡ netpol_at s₁ ns name =
          λ outcome s₁. patch_status_for_outcome-Keeps L W C P n policy outcome s₁ ns name inside in
        let told : (outcome : ReconcileOutcome) (s₁ : State)
            → netpol_at ((publish_outcome_event L W policy (some rendered) outcome s₁).1) ns name
              ≡ netpol_at s₁ ns name =
          λ outcome s₁.
            publish_outcome_event-Keeps policy (some rendered) outcome s₁ ns name inside in
        grind (arith, got, applied, patched, told)
