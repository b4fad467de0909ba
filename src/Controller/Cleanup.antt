-- ===== src/Controller/Cleanup.antt =====
-- What a successful clean-up leaves.
use ipmaze.Base.{ap, String, ◌≡◌, ok, err, some, none, Option, arith, is_some, true}
use ipmaze.Api.{CidrPolicy, managed_network_policy_name}
use ipmaze.Libs.{Libs}
use ipmaze.World.{World}
use ipmaze.Networking.{NetworkPolicy}
use ipmaze.Controller.{Next, reconcile, cleanup}
use ipmaze.Controller.Cluster.{Cluster}
use ipmaze.Controller.Managed.{
  get_managed_network_policy, check_owned, delete_managed_network_policy, deletion_result,
  publish_policy_event,
}

module _ (L : Libs) (W : World L) (C : Cluster L W) where
  open L use {OwnerReference}
  open W use {State, namespace}
  open C use {netpol_at}

  -- A deletion that is accepted, or that is answered by 404, leaves no object.
  pub record Erases : Type 0 where
    pub deleted :
        (n m : String) (s : State) (u : Unit {0})
        → (W.delete_network_policy n m s).0 ≡ ok u
        → netpol_at ((W.delete_network_policy n m s).1) n m ≡ none
    pub missing :
        (n m : String) (s : State) (e : W.KubeError)
        → (W.delete_network_policy n m s).0 ≡ err e
        → W.api_code e ≡ some 404
        → netpol_at ((W.delete_network_policy n m s).1) n m ≡ none

  -- The read of an empty place leaves it empty.
  get_finds :
      (n : String) (policy : CidrPolicy OwnerReference) (s : State)
      → (get_managed_network_policy L W n policy "Cleanup" s).0 ≡ ok none
      → netpol_at
          ((get_managed_network_policy L W n policy "Cleanup" s).1)
          n
          (managed_network_policy_name policy)
        ≡ none
  unfolding get_managed_network_policy check_owned
  get_finds n policy s h =
      let name = managed_network_policy_name policy in
      let read : (found : Option (NetworkPolicy OwnerReference))
          → (W.get_opt_network_policy n name s).0 ≡ ok found
          → found ≡ netpol_at s n name =
        λ found h.
          C.read n name s _ found (ap (λ r. (r, (W.get_opt_network_policy n name s).1)) h) in
      let kept = C.kept_by_read n name s n name in grind (arith, read, kept)

  cleanup_leaves_none :
      (policy : CidrPolicy OwnerReference) (s : State) (n : String) (u : Unit {0})
      → Erases
      → namespace policy ≡ some n
      → (cleanup L W policy s).0 ≡ ok u
      → netpol_at ((cleanup L W policy s).1) n (managed_network_policy_name policy) ≡ none
  unfolding cleanup delete_managed_network_policy deletion_result publish_policy_event
  cleanup_leaves_none policy s n u laws here h =
      let name = managed_network_policy_name policy in
      let found = get_finds n policy s in
      let gone = laws.deleted n name in
      let missing = laws.missing n name in grind (arith, found, gone, missing, C.kept_by_publish)

  -- When `reconcile` succeeds on a CIDRPolicy that is being deleted, no NetworkPolicy is left under
  -- its managed name, provided that a deletion that is accepted or answered by 404 leaves none.
  pub reconcile_cleaned :
      (policy : CidrPolicy OwnerReference) (s : State) (n : String) (next : Next)
      → Erases
      → namespace policy ≡ some n
      → is_some policy.metadata.deletion_timestamp ≡ true
      → (reconcile L W policy s).0 ≡ ok next
      → netpol_at ((reconcile L W policy s).1) n (managed_network_policy_name policy) ≡ none
  unfolding reconcile
  reconcile_cleaned policy s n next laws here going h =
      let cleaned : (u : Unit {0})
          → (cleanup L W policy s).0 ≡ ok u
          → netpol_at ((cleanup L W policy s).1) n (managed_network_policy_name policy) ≡ none =
        λ u. cleanup_leaves_none policy s n u laws here in
      grind (arith, cleaned)
