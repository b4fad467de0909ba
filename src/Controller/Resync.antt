-- ===== src/Controller/Resync.antt =====
-- When a reconciled policy is reconciled again, and when its NetworkPolicy counts as unchanged.
use ipmaze.Base.{
  map_option, ℕ, String, true, ◌≡◌, ◌≢◌, ◌<◌, ◌↔◌, ==_iff, refl, sym, ap, ◌∙◌, Option, none, some,
  List, ok, arith, option_eq, list_eq, string_eq,
}
use ipmaze.Api.{CidrPolicy}
use ipmaze.Networking.{NetworkPolicy, spec_eq, map_eq}
use ipmaze.Libs.{Libs}
use ipmaze.World.{World}
use ipmaze.Validation.{ValidatedPolicy}
use ipmaze.Status.{no_change}
use ipmaze.Controller.{
  managed_policy_matches, classify_outcome, settle, reconcile, Next, await_change, requeue,
}
use ipmaze.Controller.Requeue.{next_resync_after, schedule_requeue_after}

module _ (L : Libs) (W : World L) where
  open L use {OwnerReference}
  open W use {State}

  next_resync_after_positive :
      (schedule : L.Schedule) (now : L.DateTime) (d : ℕ)
      → next_resync_after L schedule now ≡ ok d
      → 0 < d
  unfolding next_resync_after
  next_resync_after_positive schedule now d h = ground arith

  schedule_requeue_after_positive :
      (schedule : L.Schedule) (s : State) (d : ℕ)
      → (schedule_requeue_after L W schedule s).0 ≡ ok d
      → 0 < d
  unfolding schedule_requeue_after
  schedule_requeue_after_positive schedule s d h = grind (arith, next_resync_after_positive)

  -- A delay that is not zero.
  abbrev pub IsLater : Next → Type 0
  IsLater await_change = ⊥
  IsLater (requeue d) = 0 < d

  settle-IsLater :
      (policy : CidrPolicy OwnerReference)
      (v : ValidatedPolicy L × NetworkPolicy OwnerReference × List String × String) (s : State)
      (next : Next)
      → (settle L W policy v s).0 ≡ ok next
      → IsLater next
  unfolding settle
  settle-IsLater policy v s next h = grind (arith, schedule_requeue_after_positive)

  -- When `reconcile` succeeds on a CIDRPolicy that is not being deleted, it asks to be run again,
  -- and after a delay that is not zero. For one that is being deleted it only waits for a change.
  pub reconcile-IsLater :
      (policy : CidrPolicy OwnerReference) (s : State) (next : Next)
      → (reconcile L W policy s).0 ≡ ok next
      → (policy.metadata.deletion_timestamp ≡ none → IsLater next)
        × (policy.metadata.deletion_timestamp ≢ none → next ≡ await_change)
  unfolding reconcile
  reconcile-IsLater policy s next h = (λ e. grind (arith, settle-IsLater), λ e. ground arith)

  pub matches_iff :
      (np desired : NetworkPolicy OwnerReference)
      → (managed_policy_matches L W np desired ≡ true) ↔ (
          (np.spec ≡ desired.spec)
          × (np.metadata.labels ≡ desired.metadata.labels)
          × (np.metadata.annotations ≡ desired.metadata.annotations)
          × (np.metadata.owner_references ≡ desired.metadata.owner_references))
  unfolding managed_policy_matches
  matches_iff np desired =
      let a = ==_iff np.spec desired.spec in
      let b = ==_iff np.metadata.labels desired.metadata.labels in
      let c = ==_iff np.metadata.annotations desired.metadata.annotations in
      let d =
        ==_iff ⦃e = option_eq ⦃e = list_eq ⦃e = L.owner_eq⦄⦄⦄ np.metadata.owner_references
          desired.metadata.owner_references in
      ground (arith, a, b, c, d)

  -- `classify_outcome` reports no change exactly when there is a NetworkPolicy and its spec, labels,
  -- annotations and owner references are those of the rendered one.
  pub classify_outcome_iff :
      (current : Option (NetworkPolicy OwnerReference)) (desired : NetworkPolicy OwnerReference)
      (observed : List String)
      → (classify_outcome L W current desired observed ≡ no_change observed) ↔ (
          (np : NetworkPolicy OwnerReference) × (current ≡ some np)
          × (np.spec ≡ desired.spec)
          × (np.metadata.labels ≡ desired.metadata.labels)
          × (np.metadata.annotations ≡ desired.metadata.annotations)
          × (np.metadata.owner_references ≡ desired.metadata.owner_references))
  unfolding classify_outcome
  classify_outcome_iff none desired observed = (λ h. cc h, λ h. cc (h.1))
  classify_outcome_iff (some np) desired observed =
      let (forth, back) = matches_iff np desired in
      (
        λ h. let (a, b, c, d) = forth (ground arith) in (np, refl, a, b, c, d),
        λ (x, e, a, b, c, d).
            let same : x ≡ np = cc e in
            let m = back (
              ap (λ y. y.spec) (sym same) ∙ a,
              ap (λ y. y.metadata.labels) (sym same) ∙ b,
              ap (λ y. y.metadata.annotations) (sym same) ∙ c,
              ap (λ y. y.metadata.owner_references) (sym same) ∙ d,
            ) in
            ground arith,
      )

  classify_outcome-eq-no_change :
      (r : Option (NetworkPolicy OwnerReference)) (np : NetworkPolicy OwnerReference)
      (observed os : List String)
      → classify_outcome L W r np observed ≡ no_change os
      → os ≡ observed
  unfolding classify_outcome
  classify_outcome-eq-no_change r np observed os h = ground arith

  -- What agrees has the rendered spec.
  pub unchanged_spec :
      (r : Option (NetworkPolicy OwnerReference)) (np : NetworkPolicy OwnerReference)
      (observed os : List String)
      → classify_outcome L W r np observed ≡ no_change os
      → map_option (λ o. o.spec) r ≡ some np.spec
  unchanged_spec r np observed os h =
      let (cur, there, same, _, _, _) =
        (classify_outcome_iff r np observed).0
          (h ∙ ap no_change (classify_outcome-eq-no_change r np observed os h)) in
      ap (map_option (λ o. o.spec)) there ∙ ap some same
