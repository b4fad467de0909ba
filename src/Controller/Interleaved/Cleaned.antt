-- ===== src/Controller/Interleaved/Cleaned.antt =====
-- What a successful clean-up leaves when others act after each of its calls, but do not put a
-- NetworkPolicy under the managed name.
use ipmaze.Base.{arith, ℕ, String, true, ◌≡◌, ap, ◌∙◌, sym, none, some, ok, err, is_some}
use ipmaze.Api.{CidrPolicy, managed_network_policy_name}
use ipmaze.Libs.{Libs}
use ipmaze.World.{World}
use ipmaze.Controller.{Next, reconcile, cleanup}
use ipmaze.Controller.Cleanup.{Erases}
use ipmaze.Controller.Cluster.{Cluster}
use ipmaze.Controller.Interleaved.{interleaved, place-IsQuiet}
use ipmaze.Controller.Managed.{
  get_managed_network_policy, delete_managed_network_policy, deletion_result, publish_policy_event,
}
use ipmaze.Controller.Steady.Writes.{get_managed_network_policy-IsFree}
use ipmaze.Controller.Steady.{IsQuiet, get_managed_network_policy-Holds}

module _ (L : Libs) (W : World L) (C : Cluster L W) (meddle : ℕ → W.State → W.State) where
  open L use {OwnerReference}
  open W use {State, namespace}
  open C use {netpol_at}

  abbrev M : World L
  M = interleaved L W meddle

  -- The others put no object in the place.
  abbrev LeaveFree : String → String → Type 0
  LeaveFree n m = (k : ℕ) (s : State) → netpol_at s n m ≡ none → netpol_at (meddle k s) n m ≡ none

  module _ (policy : CidrPolicy OwnerReference) (n : String)
      (leave : LeaveFree n (managed_network_policy_name policy)) where
    abbrev name : String
    name = managed_network_policy_name policy

    abbrev IsGone : State × ℕ → Type 0
    IsGone s = netpol_at s.0 n name ≡ none

    IsGone-IsQuiet : IsQuiet L M IsGone
    IsGone-IsQuiet = place-IsQuiet L W C meddle n name (λ found. found ≡ none) leave

    -- The read of an empty place leaves it empty.
    get-IsGone :
        (s : State × ℕ)
        → (get_managed_network_policy L M n policy "Cleanup" s).0 ≡ ok none
        → IsGone (get_managed_network_policy L M n policy "Cleanup" s).1
    get-IsGone (s, k) h =
        let (found, e, _, is) =
          get_managed_network_policy-IsFree L M (λ _. Unit) policy "Cleanup" n (s, k) none h in
        let s' = (W.get_opt_network_policy n name s).1 in
        get_managed_network_policy-Holds L M IsGone IsGone-IsQuiet n policy "Cleanup" (s, k)
          (sym (is ∙ C.read n name s s' found (ap (λ x. (x, s')) e)))

    cleanup-IsGone :
        Erases L W C
        → (s : State × ℕ) (u : Unit {0}) → namespace policy ≡ some n
        → (cleanup L M policy s).0 ≡ ok u
        → IsGone (cleanup L M policy s).1
    unfolding cleanup delete_managed_network_policy deletion_result publish_policy_event
    cleanup-IsGone laws s u here h =
        let deleted : (s₁ : State × ℕ) (v : Unit {0})
            → (M.delete_network_policy n name s₁).0 ≡ ok v
            → IsGone (M.delete_network_policy n name s₁).1 =
          λ (s₁, k) v e. leave k _ (laws.deleted n name s₁ v e) in
        let missing : (s₁ : State × ℕ) (x : W.KubeError)
            → (M.delete_network_policy n name s₁).0 ≡ err x
            → W.api_code x ≡ some 404
            → IsGone (M.delete_network_policy n name s₁).1 =
          λ (s₁, k) x e code. leave k _ (laws.missing n name s₁ x e code) in
        let quiet = IsGone-IsQuiet.by_publish in grind (arith, get-IsGone, deleted, missing, quiet)

  -- When `reconcile` succeeds on a CIDRPolicy that is being deleted, and others do whatever they like
  -- after each single call that it makes, but put no NetworkPolicy under the managed name where none
  -- is, then none is left there, provided that a deletion that is accepted or answered by 404 leaves
  -- none.
  pub reconcile-cleaned :
      (policy : CidrPolicy OwnerReference) (s : State × ℕ) (n : String) (next : Next)
      → Erases L W C
      → LeaveFree n (managed_network_policy_name policy)
      → namespace policy ≡ some n
      → is_some policy.metadata.deletion_timestamp ≡ true
      → (reconcile L M policy s).0 ≡ ok next
      → netpol_at ((reconcile L M policy s).1.0) n (managed_network_policy_name policy) ≡ none
  unfolding reconcile
  reconcile-cleaned policy s n next laws leave here going h =
      let cleaned : (u : Unit {0})
          → (cleanup L M policy s).0 ≡ ok u
          → IsGone policy n leave (cleanup L M policy s).1 =
        λ u. cleanup-IsGone policy n leave laws s u here in
      grind (arith, cleaned)
