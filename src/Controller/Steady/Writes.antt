-- ===== src/Controller/Steady/Writes.antt =====
-- The rule for the whole of `reconcile`, and for what follows a failure.
use ipmaze.Base.{
  arith, ◌≡◌, sym, refl, String, true, Option, none, some, List, ok, err, inl, inr, is_some,
  Bool-cases, Result, Result-cases,
}
use mathlib.Core.Path.{subst}
use ipmaze.Api.{CidrPolicy, managed_network_policy_name}
use ipmaze.Networking.{NetworkPolicy}
use ipmaze.Libs.{Libs}
use ipmaze.World.{World}
use ipmaze.Base.Action.{Action, ◌>>=◌}
use ipmaze.Validation.{ValidatedPolicy}
use ipmaze.Status.{
  ReconcileStage, ReconcileOutcome, reconciled, no_change, failed, patch_status_for_outcome,
}
use ipmaze.NetPol.{field_manager, is_managed_network_policy_for}
use ipmaze.Controller.{prepare, settle, cleanup, reconcile, apply_outcome, handle_reconcile_failure}
use ipmaze.Controller.Managed.{
  get_managed_network_policy, check_owned, apply_managed_network_policy, publish_policy_event,
  delete_managed_network_policy, name_or_default,
}
use ipmaze.Controller.Isolation.{prepare-eq-ok}
use ipmaze.Controller.Requeue.{schedule_requeue_after}
use ipmaze.Controller.Steady.{
  IsQuiet, IsFree, Tolerates, Holds, prepare-Holds, publish_policy_event-Holds,
  publish_outcome_event-Holds, patch_status_for_outcome-Holds, get_managed_network_policy-Holds,
}

module _ (L : Libs) (W : World L) where
  open L use {OwnerReference}
  open W use {State}

  check_owned-eq-ok :
      (policy : CidrPolicy OwnerReference) (action : String) (np : NetworkPolicy OwnerReference)
      (s : State) (r : Option (NetworkPolicy OwnerReference))
      → (check_owned L W policy action np s).0 ≡ ok r
      → (is_managed_network_policy_for L W policy np ≡ true) × (r ≡ some np)
  unfolding check_owned
  check_owned-eq-ok policy action np s r h = (ground arith, ground arith)

  -- A read that succeeds has found the place free.
  pub get_managed_network_policy-IsFree :
      (I : State → Type 0) (policy : CidrPolicy OwnerReference) (action n : String) (s : State)
      (r : Option (NetworkPolicy OwnerReference))
      → (get_managed_network_policy L W n policy action s).0 ≡ ok r
      → (found : Option (NetworkPolicy OwnerReference)) × ((W.get_opt_network_policy n
            (managed_network_policy_name policy)
            s).0
          ≡ ok found)
        × IsFree L W I policy found
        × (r ≡ found)
  unfolding get_managed_network_policy
  get_managed_network_policy-IsFree I policy action n s r h =
      let m = managed_network_policy_name policy in
      elim (Result-cases ((W.get_opt_network_policy n m s).0)) [
        | inl (none, e) ↦ (none, e, tt, ground arith)
        | inl (some np, e) ↦
            let (ours, same) =
              check_owned-eq-ok policy action np ((W.get_opt_network_policy n m s).1) r
                (ground arith) in
            (some np, e, ours, same)
        | inr (x, e) ↦ absurd (ground arith)
      ]

module _ (L : Libs) (W : World L) (I : W.State → Type 0) where
  open L use {OwnerReference}
  open W use {State, namespace}

  -- What a read that was followed by nothing but quiet calls allows.
  abbrev pub Allows : CidrPolicy OwnerReference → String → Type 0
  Allows policy n =
      ((manager : String) (np : NetworkPolicy OwnerReference) (s : State)
        → I s
        → I (W.apply_network_policy n (managed_network_policy_name policy) manager np s).1)
      × ((s : State) → I s → I (W.delete_network_policy n (managed_network_policy_name policy) s).1)

  pub allowed :
      (policy : CidrPolicy OwnerReference) (action n : String) (s : State)
      (r : Option (NetworkPolicy OwnerReference))
      → Tolerates L W I policy
      → namespace policy ≡ some n
      → I s
      → (get_managed_network_policy L W n policy action s).0 ≡ ok r
      → Allows policy n
  allowed policy action n s r T here h got =
      let (found, read, free, _) =
        get_managed_network_policy-IsFree L W I policy action n s r got in
      (
        λ manager np s₁. T.by_apply n manager np s s₁ found here h read free,
        λ s₁. T.by_delete n s s₁ found here h read free,
      )

  pub apply_outcome-Holds :
      (policy : CidrPolicy OwnerReference) (n : String) (rendered : NetworkPolicy OwnerReference)
      (outcome : ReconcileOutcome)
      → Allows policy n
      → rendered.metadata.name ≡ some (managed_network_policy_name policy)
      → Holds L W I (apply_outcome L W n rendered outcome)
  unfolding apply_outcome apply_managed_network_policy
  apply_outcome-Holds policy n rendered (reconciled observed) may named s h =
      subst (λ x. I (W.apply_network_policy n (name_or_default x) field_manager rendered s).1)
        (sym named) (may.0 field_manager rendered s h)
  apply_outcome-Holds policy n rendered (no_change observed) may named s h = h
  apply_outcome-Holds policy n rendered (failed stage message) may named s h = h

  settle-Holds :
      (policy : CidrPolicy OwnerReference) (v : ValidatedPolicy L)
      (rendered : NetworkPolicy OwnerReference) (observed : List String) (n : String)
      → Tolerates L W I policy
      → namespace policy ≡ some n
      → rendered.metadata.name ≡ some (managed_network_policy_name policy)
      → Holds L W I (settle L W policy (v, rendered, observed, n))
  unfolding settle schedule_requeue_after
  settle-Holds policy v rendered observed n T here named s h =
      let got = get_managed_network_policy-Holds L W I T.quiet n policy "Reconcile" s h in
      let applied : (r : Option (NetworkPolicy OwnerReference))
          → (get_managed_network_policy L W n policy "Reconcile" s).0 ≡ ok r
          → (outcome : ReconcileOutcome) (s₁ : State) → I s₁
          → I (apply_outcome L W n rendered outcome s₁).1 =
        λ r read outcome s₁ k.
          apply_outcome-Holds policy n rendered outcome
            (allowed policy "Reconcile" n s r T here h read) named s₁ k in
      let patched = patch_status_for_outcome-Holds L W I T.quiet n policy in
      let told = publish_outcome_event-Holds L W I T.quiet policy (some rendered) in
      grind (arith, applied, patched, told)

  cleanup-Holds :
      (policy : CidrPolicy OwnerReference)
      → Tolerates L W I policy
      → Holds L W I (cleanup L W policy)
  unfolding cleanup delete_managed_network_policy publish_policy_event
  cleanup-Holds policy T s h =
      let got : (n : String) → I (get_managed_network_policy L W n policy "Cleanup" s).1 =
        λ n. get_managed_network_policy-Holds L W I T.quiet n policy "Cleanup" s h in
      let deleted : (n : String) (r : Option (NetworkPolicy OwnerReference))
          → namespace policy ≡ some n
          → (get_managed_network_policy L W n policy "Cleanup" s).0 ≡ ok r
          → (s₁ : State) → I s₁
          → I (W.delete_network_policy n (managed_network_policy_name policy) s₁).1 =
        λ n r here read. (allowed policy "Cleanup" n s r T here h read).1 in
      grind (arith, got, deleted, T.quiet.by_publish)

  bind_pair :
      {A B E : Type 0} (p : Result A E × State) (f : A → Action State B E) (s : State)
      → I p.1
      → ((a : A) (s₁ : State) → p ≡ (ok a, s₁) → I s₁ → I (f a s₁).1)
      → I (((λ _. p) >>= f) s).1
  bind_pair (ok a, s₁) f s h k = k a s₁ refl h
  bind_pair (err e, s₁) f s h k = h

  update-Holds :
      (policy : CidrPolicy OwnerReference)
      → Tolerates L W I policy
      → Holds L W I (prepare L W policy >>= settle L W policy)
  update-Holds policy T s h =
      bind_pair (prepare L W policy s) (settle L W policy) s
        (prepare-Holds L W I T.quiet policy s h)
        (λ (v, np, observed, n) s₁ made k.
          let (here, named) = prepare-eq-ok L W policy s s₁ v np observed n made in
          settle-Holds policy v np observed n T here named s₁ k)

  -- `reconcile` keeps what the quiet calls keep, and what the writes of a free place keep.
  pub reconcile-Holds :
      (policy : CidrPolicy OwnerReference)
      → Tolerates L W I policy
      → Holds L W I (reconcile L W policy)
  unfolding reconcile
  reconcile-Holds policy T s h =
      let cleaned = cleanup-Holds policy T s h in
      let updated = update-Holds policy T s h in
      elim (Bool-cases (is_some policy.metadata.deletion_timestamp)) [
        | inl going ↦ grind arith
        | inr staying ↦ rw staying updated
      ]

  pub handle_reconcile_failure-Holds :
      (policy : CidrPolicy OwnerReference) (stage : ReconcileStage) (message : String)
      → IsQuiet L W I
      → Holds L W I (handle_reconcile_failure L W policy stage message)
  unfolding handle_reconcile_failure
  handle_reconcile_failure-Holds policy stage message Q s h =
      let patched : (n : String)
          → I (patch_status_for_outcome L W n policy (failed stage message) s).1 =
        λ n. patch_status_for_outcome-Holds L W I Q n policy (failed stage message) s h in
      let told = publish_policy_event-Holds L W I Q policy in grind (arith, patched, told)
