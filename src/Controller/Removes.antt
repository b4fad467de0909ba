-- ===== src/Controller/Removes.antt =====
-- When the clean-up of a deleted CIDRPolicy is sure to succeed.
use ipmaze.Base.{
  arith, ◌≡◌, ◌⊎◌, String, true, false, none, some, ok, err, inl, inr, is_some, Option-cases,
}
use ipmaze.Api.{CidrPolicy, managed_network_policy_name}
use ipmaze.Libs.{Libs}
use ipmaze.World.{World, Event}
use ipmaze.Controller.{cleanup, reconcile, await_change}
use ipmaze.Controller.Cleanup.{Erases, reconcile_cleaned}
use ipmaze.Controller.Cluster.{Cluster}
use ipmaze.Controller.Managed.{
  get_managed_network_policy, delete_managed_network_policy, deletion_result, publish_policy_event,
}
use ipmaze.Controller.Steady.{IsFree, Tolerates, get_managed_network_policy-Holds}
use ipmaze.Controller.Steady.Writes.{allowed}
use ipmaze.Controller.Succeeds.{Grants, read_succeeds}

-- In a state that is up a deletion is accepted, or answered by 404.
abbrev pub GrantsDeletion : (L : Libs) (W : World L) → (W.State → Type 0) → Type 0
GrantsDeletion L W Up =
    (n m : String) (s : W.State)
    → Up s
    → ((W.delete_network_policy n m s).0 ≡ ok tt)
      ⊎ ((e : W.KubeError) × ((W.delete_network_policy n m s).0 ≡ err e)
          × (W.api_code e ≡ some 404))

module _ (L : Libs) (W : World L) (C : Cluster L W) (Up : W.State → Type 0) (G : Grants L W Up)
    (D : GrantsDeletion L W Up) where
  open L use {OwnerReference}
  open W use {State, namespace}
  open C use {netpol_at}

  deletes :
      (policy : CidrPolicy OwnerReference) (n : String) (s : State)
      → Up s
      → (delete_managed_network_policy L W n policy true s).0 ≡ ok true
        ⊎ ((delete_managed_network_policy L W n policy true s).0 ≡ ok false)
  unfolding delete_managed_network_policy deletion_result
  deletes policy n s up = elim (D n (managed_network_policy_name policy) s up) [
    | inl accepted ↦ inl (ground arith)
    | inr (e, answered, missing) ↦ inr (ground arith)
  ]

  cleanup_succeeds :
      (policy : CidrPolicy OwnerReference) (n : String) (s : State)
      → namespace policy ≡ some n
      → IsFree L W Up policy (netpol_at s n (managed_network_policy_name policy))
      → Tolerates L W Up policy
      → Up s
      → (cleanup L W policy s).0 ≡ ok tt
  unfolding cleanup publish_policy_event delete_managed_network_policy
  cleanup_succeeds policy n s here free T up =
      let m = managed_network_policy_name policy in
      let read = read_succeeds L W C Up G policy "Cleanup" n s up free in
      let s₁ = (get_managed_network_policy L W n policy "Cleanup" s).1 in
      let up₁ = get_managed_network_policy-Holds L W Up T.quiet n policy "Cleanup" s up in
      elim (Option-cases (netpol_at s n m)) [
        | inl absent ↦
            let told : (event : Event W.ObjectReference)
                → (W.publish event (W.object_ref policy) s₁).0 ≡ ok tt =
              λ event. G.publishes event (W.object_ref policy) s₁ up₁ in
            grind (arith, told)
        | inr (np, found) ↦
            let may = allowed L W Up policy "Cleanup" n s (netpol_at s n m) T here up read in
            let s₂ = (W.delete_network_policy n m s₁).1 in
            let up₂ : Up s₂ = may.1 s₁ up₁ in
            let told : (event : Event W.ObjectReference)
                → (W.publish event (W.object_ref policy) s₂).0 ≡ ok tt =
              λ event. G.publishes event (W.object_ref policy) s₂ up₂ in
            let deleted = deletes policy n s₁ up₁ in grind (arith, told)
      ]

  -- A CIDRPolicy that is being deleted is cleaned up with success when it has a namespace, the
  -- managed name is free or holds an object with the policy's marks, and the API server, which the
  -- run's own calls do not bring down, grants each request, and a deletion also by 404: then
  -- no NetworkPolicy is left under the managed name, and the next run waits for a change.
  pub reconcile_removes :
      (policy : CidrPolicy OwnerReference) (n : String) (s : State)
      → Erases L W C
      → is_some policy.metadata.deletion_timestamp ≡ true
      → namespace policy ≡ some n
      → IsFree L W Up policy (netpol_at s n (managed_network_policy_name policy))
      → Tolerates L W Up policy
      → Up s
      → ((reconcile L W policy s).0 ≡ ok await_change)
        × (netpol_at ((reconcile L W policy s).1) n (managed_network_policy_name policy) ≡ none)
  unfolding reconcile
  reconcile_removes policy n s laws going here free T up =
      let cleaned = cleanup_succeeds policy n s here free T up in
      let done : (reconcile L W policy s).0 ≡ ok await_change = ground arith in
      (done, reconcile_cleaned L W C policy s n await_change laws here going done)
