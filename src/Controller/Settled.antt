-- ===== src/Controller/Settled.antt =====
-- A `reconcile` that finds the NetworkPolicy as it should be, and one whose schedule has run out.
use ipmaze.Base.{
  ℕ, String, ◌≡◌, ◌≢◌, refl, sym, ap, ◌∙◌, Option, none, some, List, ok, is_some, arith,
}
use ipmaze.Base.Action.{◌>>=◌, >>=-eq-ok}
use ipmaze.Api.{CidrPolicy, managed_network_policy_name}
use ipmaze.Networking.{NetworkPolicy}
use ipmaze.Libs.{Libs}
use ipmaze.World.{World}
use ipmaze.Validation.{ValidatedPolicy, validate_policy}
use ipmaze.Status.{ReconcileOutcome, no_change, patch_status_for_outcome}
use ipmaze.Controller.{
  prepare, settle, reconcile, Next, classify_outcome, apply_outcome, publish_outcome_event,
}
use ipmaze.Controller.Cluster.{Cluster}
use ipmaze.Controller.Cluster.Keeps.{
  get_managed_network_policy-Keeps, patch_status_for_outcome-Keeps,
}
use ipmaze.Controller.Safety.{prepare-Keeps, publish_outcome_event-Keeps}
use ipmaze.Controller.Enforcement.{get_managed_network_policy-eq-ok}
use ipmaze.Controller.Rendering.{reconcile_update}
use ipmaze.Controller.Resync.{classify_outcome_iff}
use ipmaze.Controller.Managed.{get_managed_network_policy}
use ipmaze.Controller.Requeue.{schedule_requeue_after, next_resync_after}

module _ (L : Libs) (W : World L) (C : Cluster L W) where
  open L use {OwnerReference}
  open W use {State}
  open C use {netpol_at}

  -- An object that agrees with the rendered policy in all that the controller sets and compares.
  pub record Agrees (cur np : NetworkPolicy OwnerReference) : Type 0 where
    pub spec : cur.spec ≡ np.spec
    pub labels : cur.metadata.labels ≡ np.metadata.labels
    pub annotations : cur.metadata.annotations ≡ np.metadata.annotations
    pub owners : cur.metadata.owner_references ≡ np.metadata.owner_references

  settle_agreed :
      (policy : CidrPolicy OwnerReference) (v : ValidatedPolicy L)
      (np cur : NetworkPolicy OwnerReference) (observed : List String) (n : String) (s : State)
      (ns name : String)
      → netpol_at s n (managed_network_policy_name policy) ≡ some cur
      → Agrees cur np
      → netpol_at ((settle L W policy (v, np, observed, n) s).1) ns name ≡ netpol_at s ns name
  unfolding settle schedule_requeue_after apply_outcome
  settle_agreed policy v np cur observed n s ns name there a =
      let all : String → String → Type 0 = λ _ _. Unit in
      let read : (r : Option (NetworkPolicy OwnerReference))
          → (get_managed_network_policy L W n policy "Reconcile" s).0 ≡ ok r
          → r ≡ some cur =
        λ r h. get_managed_network_policy-eq-ok L W C policy "Reconcile" n s r h ∙ there in
      let got = get_managed_network_policy-Keeps L W C all n policy "Reconcile" s ns name tt in
      let same : classify_outcome L W (some cur) np observed ≡ no_change observed =
        (classify_outcome_iff L W (some cur) np observed).1
          (cur, refl, a.spec, a.labels, a.annotations, a.owners) in
      let patched : (outcome : ReconcileOutcome) (s₁ : State)
          → netpol_at ((patch_status_for_outcome L W n policy outcome s₁).1) ns name
            ≡ netpol_at s₁ ns name =
        λ outcome s₁. patch_status_for_outcome-Keeps L W C all n policy outcome s₁ ns name tt in
      let told : (outcome : ReconcileOutcome) (s₁ : State)
          → netpol_at ((publish_outcome_event L W policy (some np) outcome s₁).1) ns name
            ≡ netpol_at s₁ ns name =
        λ outcome s₁.
          publish_outcome_event-Keeps L W C all policy (some np) outcome s₁ ns name tt in
      grind (arith, read, patched, told)

  -- When the policy that `reconcile` renders agrees with the NetworkPolicy that is already there, in
  -- spec, labels, annotations and owner references, no NetworkPolicy is changed.
  pub reconcile_agreed :
      (policy : CidrPolicy OwnerReference) (v : ValidatedPolicy L)
      (np cur : NetworkPolicy OwnerReference) (observed : List String) (n : String) (s s₁ : State)
      (ns name : String)
      → policy.metadata.deletion_timestamp ≡ none
      → prepare L W policy s ≡ (ok (v, np, observed, n), s₁)
      → netpol_at s n (managed_network_policy_name policy) ≡ some cur
      → Agrees cur np
      → netpol_at ((reconcile L W policy s).1) ns name ≡ netpol_at s ns name
  reconcile_agreed policy v np cur observed n s s₁ ns name staying made there a =
      let all : String → String → Type 0 = λ _ _. Unit in
      let kept : (x y : String) → netpol_at s₁ x y ≡ netpol_at s x y =
        λ x y. ap (λ r. netpol_at r.1 x y) (sym made) ∙ prepare-Keeps L W C all policy s x y tt in
      let settled =
        settle_agreed policy v np cur observed n s₁ ns name
          (kept n (managed_network_policy_name policy) ∙ there) a in
      let whole = reconcile_update L W policy s (ap is_some staying) in
      ap (λ r. netpol_at r.1 ns name) whole
      ∙ ap (λ p. netpol_at (((λ _. p) >>= settle L W policy) s).1 ns name) made
      ∙ settled
      ∙ kept ns name

module _ (L : Libs) (W : World L) where
  open L use {OwnerReference, DateTime}
  open W use {State}

  next_resync_after_exhausted :
      (schedule : L.Schedule) (now : DateTime) (d : ℕ)
      → L.schedule_after schedule now ≡ none
      → next_resync_after L schedule now ≢ ok d
  unfolding next_resync_after
  next_resync_after_exhausted schedule now d over h = ground arith

  settle_exhausted :
      (policy : CidrPolicy OwnerReference) (v : ValidatedPolicy L)
      (np : NetworkPolicy OwnerReference) (observed : List String) (n : String) (s : State)
      (next : Next)
      → ((now : DateTime) → L.schedule_after v.resync_schedule now ≡ none)
      → (settle L W policy (v, np, observed, n) s).0 ≢ ok next
  unfolding settle schedule_requeue_after
  settle_exhausted policy v np observed n s next over h =
      let never : (now : DateTime) (d : ℕ) → next_resync_after L v.resync_schedule now ≢ ok d =
        λ now d. next_resync_after_exhausted v.resync_schedule now d (over now) in
      grind (arith, never)

  prepare-validates :
      (policy : CidrPolicy OwnerReference) (s : State) (v : ValidatedPolicy L)
      (np : NetworkPolicy OwnerReference) (observed : List String) (n : String)
      → (prepare L W policy s).0 ≡ ok (v, np, observed, n)
      → validate_policy L policy ≡ ok v
  unfolding prepare
  prepare-validates policy s v np observed n h = grind arith

  update_exhausted :
      (policy : CidrPolicy OwnerReference) (v : ValidatedPolicy L) (s : State) (next : Next)
      → validate_policy L policy ≡ ok v
      → ((now : DateTime) → L.schedule_after v.resync_schedule now ≡ none)
      → ((prepare L W policy >>= settle L W policy) s).0 ≢ ok next
  update_exhausted policy v s next valid over h =
      let end : State = ((prepare L W policy >>= settle L W policy) s).1 in
      let ((w, np, observed, n), s₁, made, settled) =
        >>=-eq-ok (prepare L W policy) (settle L W policy) s {s' = end} (ap (λ x. (x, end)) h) in
      let read = prepare-validates policy s w np observed n (ap (λ x. x.0) made) in
      let same : v ≡ w = cc (valid, read) in
      settle_exhausted policy w np observed n s₁ next
        (λ now. ap (λ x. L.schedule_after x.resync_schedule now) (sym same) ∙ over now)
        (ap (λ x. x.0) settled)

  -- A CIDRPolicy that validation accepts, but whose schedule has no execution after any time, is never
  -- reconciled with success while it is not being deleted.
  pub reconcile_exhausted :
      (policy : CidrPolicy OwnerReference) (v : ValidatedPolicy L) (s : State) (next : Next)
      → policy.metadata.deletion_timestamp ≡ none
      → validate_policy L policy ≡ ok v
      → ((now : DateTime) → L.schedule_after v.resync_schedule now ≡ none)
      → (reconcile L W policy s).0 ≢ ok next
  reconcile_exhausted policy v s next staying valid over h =
      update_exhausted policy v s next valid over
        (ap (λ r. r.0) (sym (reconcile_update L W policy s (ap is_some staying))) ∙ h)
