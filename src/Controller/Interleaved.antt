-- ===== src/Controller/Interleaved.antt =====
-- controller.rs: runs of the controller in which others act after each single call, so also inside
-- of one reconciliation.
pub mod Cleaned
pub mod Enforced
pub mod Recorded
use ipmaze.Base.{
  ℕ, suc, String, string_dec, string_eq, false, ◌≡◌, ◌≢◌, ◌⊎◌, sym, ap, ◌∙◌, Option, none, some,
  List, All, ok, inl, inr, arith,
}
use mathlib.Core.Path.{subst}
use ipmaze.Base.Action.{Action}
use ipmaze.Api.{CidrPolicy, managed_network_policy_name}
use ipmaze.Networking.{NetworkPolicy}
use ipmaze.Libs.{Libs}
use ipmaze.World.{World}
use ipmaze.NetPol.{is_managed_network_policy_for}
use ipmaze.Controller.{error_policy}
use ipmaze.Controller.Cluster.{Cluster}
use ipmaze.Controller.Runs.{IsSpared, Run, Step, reconciles, reports, stop, step, others}
use ipmaze.Controller.Steady.{IsQuiet, IsFree, Tolerates}
use ipmaze.Controller.Steady.Writes.{reconcile-Holds, handle_reconcile_failure-Holds}

-- The others act after a call, the k-th one, and the number is one more.
abbrev meddled : {S A E : Type 0} → (ℕ → S → S) → Action S A E → Action (S × ℕ) A E
meddled meddle m (s, k) = let (r, s') = m s in (r, (meddle k s', suc k))

-- The number counts the calls so far: after the k-th one the others do `meddle k`.
abbrev pub interleaved : (L : Libs) (W : World L) → (ℕ → W.State → W.State) → World L
interleaved L W meddle = record {
  State = W.State × ℕ;
  Response = W.Response;
  send = λ u. meddled meddle (W.send u);
  error_for_status = W.error_for_status;
  text = λ r. meddled meddle (W.text r);
  bytes = λ r. meddled meddle (W.bytes r);
  now = λ s. W.now s.0;
  ObjectReference = W.ObjectReference;
  name_any = W.name_any;
  namespace = W.namespace;
  controller_owner_ref = W.controller_owner_ref;
  object_ref = W.object_ref;
  network_policy_ref = W.network_policy_ref;
  KubeError = W.KubeError;
  api_code = W.api_code;
  kube_error_text = W.kube_error_text;
  get_opt_network_policy = λ n m. meddled meddle (W.get_opt_network_policy n m);
  apply_network_policy = λ n m manager np. meddled meddle (W.apply_network_policy n m manager np);
  delete_network_policy = λ n m. meddled meddle (W.delete_network_policy n m);
  get_cidr_policy = λ n m. meddled meddle (W.get_cidr_policy n m);
  patch_cidr_policy_status =
      λ n m manager status. meddled meddle (W.patch_cidr_policy_status n m manager status);
  publish = λ e r. meddled meddle (W.publish e r);
}

module _ (L : Libs) (W : World L) (C : Cluster L W) (meddle : ℕ → W.State → W.State) where
  open L use {OwnerReference}
  open W use {State, namespace}
  open C use {netpol_at}

  abbrev M : World L
  M = interleaved L W meddle

  -- What is said of the object at a place is kept by the calls that write none, where the others
  -- keep it.
  module _ (ns name : String) (P : Option (NetworkPolicy OwnerReference) → Type 0)
      (leave : (k : ℕ) (s : State)
        → P (netpol_at s ns name)
        → P (netpol_at (meddle k s) ns name)) where
    stays :
        (k : ℕ) (s s' : State)
        → netpol_at s' ns name ≡ netpol_at s ns name
        → P (netpol_at s ns name)
        → P (netpol_at (meddle k s') ns name)
    stays k s s' kept h = leave k s' (subst P (sym kept) h)

    pub place-IsQuiet : IsQuiet L M (λ s. P (netpol_at s.0 ns name))
    place-IsQuiet = record {
      by_send = λ u (s, k). stays k s _ (C.kept_by_send u s ns name);
      by_text = λ r (s, k). stays k s _ (C.kept_by_text r s ns name);
      by_bytes = λ r (s, k). stays k s _ (C.kept_by_bytes r s ns name);
      by_read = λ n m (s, k). stays k s _ (C.kept_by_read n m s ns name);
      by_get = λ n m (s, k). stays k s _ (C.kept_by_get n m s ns name);
      by_patch_status = λ n m manager status (s, k).
          stays k s _ (C.kept_by_patch_status n m manager status s ns name);
      by_publish = λ e r (s, k). stays k s _ (C.kept_by_publish e r s ns name);
    }

  -- The others leave the object as it is.
  abbrev pub Leave : String → String → NetworkPolicy OwnerReference → Type 0
  Leave ns name np =
      (k : ℕ) (s : State) → netpol_at s ns name ≡ some np → netpol_at (meddle k s) ns name ≡ some np

  module _ (ns name : String) (np : NetworkPolicy OwnerReference) (leave : Leave ns name np) where
    abbrev IsThere : State × ℕ → Type 0
    IsThere s = netpol_at s.0 ns name ≡ some np

    IsThere-IsQuiet : IsQuiet L M IsThere
    IsThere-IsQuiet = place-IsQuiet ns name (λ found. found ≡ some np) leave

    -- The policy's place is another one, or holds this object, which is not the policy's.
    place_cases :
        (policy : CidrPolicy OwnerReference) (n : String)
        → IsSpared L W C ns name np policy
        → namespace policy ≡ some n
        → ((ns ≢ n) ⊎ (name ≢ managed_network_policy_name policy))
          ⊎ ((ns ≡ n)
              × (name ≡ managed_network_policy_name policy)
              × (is_managed_network_policy_for L W policy np ≡ false))
    place_cases policy n (inl other) here = inl (inl (λ same. other (here ∙ ap some (sym same))))
    place_cases policy n (inr (inl other)) here = inl (inr other)
    place_cases policy n (inr (inr foreign)) here = elim (string_dec ns n) [
      | no other ↦ inl (inl other)
      | yes same ↦ elim (string_dec name (managed_network_policy_name policy)) [
        | no other ↦ inl (inr other)
        | yes same' ↦ inr (same, same', foreign)
      ]
    ]

    free_IsFalse :
        (policy : CidrPolicy OwnerReference) (found : Option (NetworkPolicy OwnerReference))
        → found ≡ some np
        → is_managed_network_policy_for L W policy np ≡ false
        → IsFree L M IsThere policy found
        → ⊥
    unfolding is_managed_network_policy_for
    free_IsFalse policy none e foreign free = ground arith
    free_IsFalse policy (some o) e foreign free = ground arith

    -- Where the place is read as free while the object is there, it is another place.
    away :
        (policy : CidrPolicy OwnerReference) (n : String) (s : State × ℕ)
        (found : Option (NetworkPolicy OwnerReference))
        → IsSpared L W C ns name np policy
        → namespace policy ≡ some n
        → IsThere s
        → (M.get_opt_network_policy n (managed_network_policy_name policy) s).0 ≡ ok found
        → IsFree L M IsThere policy found
        → (ns ≢ n) ⊎ (name ≢ managed_network_policy_name policy)
    away policy n (s, k) found spared here there read free =
        let m = managed_network_policy_name policy in
        elim (place_cases policy n spared here) [
          | inl other ↦ other
          | inr (same, same', foreign) ↦
              let is : found ≡ netpol_at s n m =
                C.read n m s ((W.get_opt_network_policy n m s).1) found
                  (ap (λ x. (x, (W.get_opt_network_policy n m s).1)) read) in
              absurd (free_IsFalse policy found (is ∙ rw (← same, ← same') there) foreign free)
        ]

    IsThere-Tolerates :
        (policy : CidrPolicy OwnerReference)
        → IsSpared L W C ns name np policy
        → Tolerates L M IsThere policy
    IsThere-Tolerates policy spared = record {
      quiet = IsThere-IsQuiet;
      by_apply = λ n manager desired s₀ (s, k) found here before read free h. leave k _ (
          C.kept_by_apply n (managed_network_policy_name policy) manager desired s ns name
            (away policy n s₀ found spared here before read free)
          ∙ h);
      by_delete = λ n s₀ (s, k) found here before read free h. leave k _ (
          C.kept_by_delete n (managed_network_policy_name policy) s ns name
            (away policy n s₀ found spared here before read free)
          ∙ h);
    }

    pub Step-IsThere :
        (policy : CidrPolicy OwnerReference) (s s' : State × ℕ)
        → Step L M policy s s'
        → IsSpared L W C ns name np policy
        → IsThere s
        → IsThere s'
    unfolding error_policy
    Step-IsThere policy s s' (reconciles _ _) spared there =
        reconcile-Holds L M IsThere policy (IsThere-Tolerates policy spared) s there
    Step-IsThere policy s s' (reports delay _ error _) spared there =
        handle_reconcile_failure-Holds L M IsThere policy _ _ IsThere-IsQuiet s there

  -- Whatever sequence of reconciliations, clean-ups and failure reports the controller runs, of
  -- whatever CIDRPolicies and however each of them ends, and whatever others do after each single
  -- call that the controller makes, and between the steps: a NetworkPolicy that is none of those
  -- CIDRPolicies', by its place or by its marks, and that the others leave as it is, is still there
  -- at the end as it was at the start.
  pub Run-interleaved :
      (Others : State × ℕ → State × ℕ → Type 0) (policies : List (CidrPolicy OwnerReference))
      (s s' : State × ℕ) (ns name : String) (np : NetworkPolicy OwnerReference)
      → Leave ns name np
      → ((s₁ s₂ : State × ℕ)
          → Others s₁ s₂
          → netpol_at s₁.0 ns name ≡ some np
          → netpol_at s₂.0 ns name ≡ some np)
      → Run L M Others policies s s'
      → netpol_at s.0 ns name ≡ some np
      → All (IsSpared L W C ns name np) policies
      → netpol_at s'.0 ns name ≡ some np
  Run-interleaved Others policies s s' ns name np leave spare (stop _) there spared = there
  Run-interleaved Others policies s s' ns name np leave spare (step policy rest _ s₁ _ first run)
        there spared =
      Run-interleaved Others rest s₁ s' ns name np leave spare run
        (Step-IsThere ns name np leave policy s s₁ first spared.0 there) spared.1
  Run-interleaved Others policies s s' ns name np leave spare (others _ _ s₁ _ act run) there
        spared =
      Run-interleaved Others policies s₁ s' ns name np leave spare run (spare s s₁ act there) spared
