-- ===== src/Controller/Isolation.antt =====
-- `reconcile` and the NetworkPolicy objects that are not the CIDRPolicy's own.
use text.Mathlib.TextLemmas.{append_cancel_right}
use ipmaze.Base.{
  unwrap_or, ◌<>◌, sym, ◌∙◌, String, ◌≡◌, ◌≢◌, ◌⊎◌, refl, ap, some, List, ok, inl, inr, Bool-cases,
  is_some, arith,
}
use ipmaze.Base.Action.{pure}
use ipmaze.Api.{CidrPolicy, managed_network_policy_name}
use ipmaze.Networking.{NetworkPolicy}
use ipmaze.Libs.{Libs}
use ipmaze.World.{World}
use ipmaze.Extract.{NormalizedCidr}
use ipmaze.Validation.{ValidatedPolicy}
use ipmaze.NetPol.{build_managed_network_policy, managed_metadata}
use ipmaze.NetPol.Ownership.{build-IsBuilt}
use ipmaze.Controller.{render_payload, prepare, settle, cleanup, reconcile, await_change}
use ipmaze.Controller.Cluster.{Cluster}
use ipmaze.Controller.Cluster.Keeps.{Keeps, >>=-KeepsFrom}
use ipmaze.Controller.Safety.{Elsewhere, prepare-Keeps, cleanup-Keeps, settle-Keeps}

module _ (L : Libs) (W : World L) where
  open L use {OwnerReference, Value}
  open W use {State, KubeError, namespace}

  built_name :
      (policy : CidrPolicy OwnerReference) (cidrs : List NormalizedCidr)
      (np : NetworkPolicy OwnerReference)
      → build_managed_network_policy L W policy cidrs ≡ ok np
      → np.metadata.name ≡ some (managed_network_policy_name policy)
  unfolding managed_metadata
  built_name policy cidrs np h =
      ap (λ m. m.name) (build-IsBuilt L W policy cidrs np h).metadata_made

  rendered_name :
      (policy : CidrPolicy OwnerReference) (payload : Value)
      (made : NetworkPolicy OwnerReference × List String)
      → render_payload L W policy payload ≡ ok made
      → made.0.metadata.name ≡ some (managed_network_policy_name policy)
  unfolding render_payload
  rendered_name policy payload made h = grind (arith, built_name)

  -- What `prepare` has made when it succeeds.
  pub prepare-eq-ok :
      (policy : CidrPolicy OwnerReference) (s s' : State) (v : ValidatedPolicy L)
      (np : NetworkPolicy OwnerReference) (observed : List String) (n : String)
      → prepare L W policy s ≡ (ok (v, np, observed, n), s')
      → (namespace policy ≡ some n) × (np.metadata.name ≡ some (managed_network_policy_name policy))
  unfolding prepare
  prepare-eq-ok policy s s' v np observed n h = grind (arith, rendered_name)

module _ (L : Libs) (W : World L) (C : Cluster L W) where
  open L use {OwnerReference}
  open W use {State, namespace}
  open C use {netpol_at}

  reconcile-Keeps :
      (P : String → String → Type 0) (policy : CidrPolicy OwnerReference)
      → Elsewhere L W C P policy
      → Keeps L W C P (reconcile L W policy)
  unfolding reconcile
  reconcile-Keeps P policy away s = elim (Bool-cases (is_some policy.metadata.deletion_timestamp)) [
    | inl going ↦ rw going (
        >>=-KeepsFrom L W C P (cleanup L W policy) (λ _. pure await_change) s
          (cleanup-Keeps L W C P policy away s) (λ _ s₁ _ ns name _. refl))
    | inr staying ↦ rw staying (
        >>=-KeepsFrom L W C P (prepare L W policy) (settle L W policy) s
          (prepare-Keeps L W C P policy s)
          (λ (v, np, observed, n) s₁ h.
            let (here, named) = prepare-eq-ok L W policy s s₁ v np observed n h in
            settle-Keeps L W C P policy v np observed n away here named s₁))
  ]

  -- However `reconcile` ends, with or without an error, and also when it cleans up a deleted
  -- CIDRPolicy, a NetworkPolicy in another namespace or under another name than the managed one
  -- is what it was.
  pub reconcile_elsewhere :
      (policy : CidrPolicy OwnerReference) (s : State) (ns name : String)
      → ((n : String)
          → namespace policy ≡ some n
          → (ns ≢ n) ⊎ (name ≢ managed_network_policy_name policy))
      → netpol_at ((reconcile L W policy s).1) ns name ≡ netpol_at s ns name
  reconcile_elsewhere policy s ns name away =
      reconcile-Keeps (λ ns' name'. (ns' ≡ ns) × (name' ≡ name)) policy
        (λ ns' name' same n here. rw (same.0, same.1) (away n here)) s ns name (refl, refl)

  managed_name_injective :
      (policy q : CidrPolicy OwnerReference) (mine others : String)
      → policy.metadata.name ≡ some mine
      → q.metadata.name ≡ some others
      → managed_network_policy_name q ≡ managed_network_policy_name policy
      → others ≡ mine
  unfolding managed_network_policy_name
  managed_name_injective policy q mine others named named_too same =
      append_cancel_right others mine "-managed" (
        ap (λ n. unwrap_or n "cidrpolicy" <> "-managed") (sym named_too)
        ∙ same
        ∙ ap (λ n. unwrap_or n "cidrpolicy" <> "-managed") named)

  -- CIDRPolicies do not get in each other's way: however `reconcile` ends for one, what stands under
  -- the managed name of another, which has another name, is what it was, in every namespace.
  pub reconcile_separate :
      (policy q : CidrPolicy OwnerReference) (s : State) (ns mine others : String)
      → policy.metadata.name ≡ some mine
      → q.metadata.name ≡ some others
      → others ≢ mine
      → netpol_at ((reconcile L W policy s).1) ns (managed_network_policy_name q)
        ≡ netpol_at s ns (managed_network_policy_name q)
  reconcile_separate policy q s ns mine others named named_too apart =
      reconcile_elsewhere policy s ns (managed_network_policy_name q) (λ n here.
        inr (λ same. apart (managed_name_injective policy q mine others named named_too same)))
