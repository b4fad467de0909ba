-- ===== src/Controller/Interleaved/Enforced.antt =====
-- What a successful reconciliation leaves when others act after each of its calls, but not on the
-- managed NetworkPolicy.
use ipmaze.Base.{ℕ, String, ◌≡◌, refl, sym, ap, ◌∙◌, Option, none, some, List, ok, map_option}
use ipmaze.Api.{CidrPolicy, managed_network_policy_name}
use ipmaze.Networking.{NetworkPolicy, NetworkPolicySpec}
use ipmaze.Libs.{Libs}
use ipmaze.World.{World}
use ipmaze.NetPol.{field_manager}
use ipmaze.Controller.{reconcile, Next}
use ipmaze.Controller.Cluster.{Cluster}
use ipmaze.Controller.Enforcement.{IsEnforced, IsEnforced-settle}
use ipmaze.Controller.Interleaved.{interleaved, place-IsQuiet}
use ipmaze.Controller.Managed.{apply_managed_network_policy, name_or_default}
use ipmaze.Controller.Resync.{unchanged_spec}
use ipmaze.Controller.Steady.{IsQuiet, get_managed_network_policy-Holds}
use ipmaze.Controller.Steady.Establishes.{ByRead, ByWrite, settle-establishes}
use ipmaze.Controller.Steady.Writes.{get_managed_network_policy-IsFree}

module _ (L : Libs) (W : World L) (C : Cluster L W) (meddle : ℕ → W.State → W.State) where
  open L use {OwnerReference}
  open W use {State, namespace}
  open C use {netpol_at}

  abbrev M : World L
  M = interleaved L W meddle

  abbrev spec_at : State → String → String → Option (Option NetworkPolicySpec)
  spec_at s ns name = map_option (λ o. o.spec) (netpol_at s ns name)

  -- The others do not touch the place.
  abbrev LeavePlace : String → String → Type 0
  LeavePlace ns name = (k : ℕ) (s : State) → netpol_at (meddle k s) ns name ≡ netpol_at s ns name

  module _ (n m : String) (leave : LeavePlace n m) (np : NetworkPolicy OwnerReference) where
    abbrev InForce : State × ℕ → Type 0
    InForce s = spec_at s.0 n m ≡ some np.spec

    InForce-IsQuiet : IsQuiet L M InForce
    InForce-IsQuiet =
        place-IsQuiet L W C meddle n m (λ o. map_option (λ x. x.spec) o ≡ some np.spec)
          (λ k s h. ap (map_option (λ o. o.spec)) (leave k s) ∙ h)

    read-InForce :
        (policy : CidrPolicy OwnerReference) (observed : List String)
        → managed_network_policy_name policy ≡ m
        → ByRead L M InForce policy n np observed
    read-InForce policy observed same (s, k) r h agrees =
        let (found, e, _, is) =
          get_managed_network_policy-IsFree L M (λ _. Unit) policy "Reconcile" n (s, k) r h in
        let name = managed_network_policy_name policy in
        let s' = (W.get_opt_network_policy n name s).1 in
        let there : r ≡ netpol_at s n m =
          is ∙ C.read n name s s' found (ap (λ x. (x, s')) e) ∙ ap (netpol_at s n) same in
        get_managed_network_policy-Holds L M InForce InForce-IsQuiet n policy "Reconcile" (s, k)
          (ap (map_option (λ o. o.spec)) (sym there)
            ∙ unchanged_spec L M r np observed observed agrees)

    write-InForce : np.metadata.name ≡ some m → ByWrite L M InForce n np
    unfolding apply_managed_network_policy
    write-InForce named (s, k) u h =
        let desired = name_or_default np.metadata.name in
        ap (map_option (λ o. o.spec)) (leave k _)
        ∙ ap
            (λ x.
              spec_at ((W.apply_network_policy n desired field_manager np s).1) n
                (name_or_default x))
            (sym named)
        ∙ C.applied n desired field_manager np s u h

  -- When `reconcile` succeeds on a CIDRPolicy that is not being deleted, and others do whatever they
  -- like after each single call that it makes, but do not touch the NetworkPolicy under the
  -- managed name in its namespace, then that NetworkPolicy is in force with the spec that is
  -- rendered from the CIDRs that this very run has resolved, fetched and extracted: for each
  -- direction one list of blocks for each rule that applies, each exactly those CIDRs.
  pub reconcile-interleaved :
      (policy : CidrPolicy OwnerReference) (s : State × ℕ) (next : Next)
      → policy.metadata.deletion_timestamp ≡ none
      → ((n : String)
          → namespace policy ≡ some n
          → LeavePlace n (managed_network_policy_name policy))
      → (reconcile L M policy s).0 ≡ ok next
      → IsEnforced L M (λ s'. netpol_at s'.0) policy s ((reconcile L M policy s).1)
  reconcile-interleaved policy s next staying leave h =
      IsEnforced-settle L M (λ s'. netpol_at s'.0) policy s next staying
        (λ v np observed n s₁ here named.
          let m = managed_network_policy_name policy in
          settle-establishes L M (InForce n m (leave n here) np) policy v np observed n s₁ next
            (InForce-IsQuiet n m (leave n here) np)
            (read-InForce n m (leave n here) np policy observed refl)
            (write-InForce n m (leave n here) np named))
        h
