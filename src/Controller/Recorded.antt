-- ===== src/Controller/Recorded.antt =====
-- controller.rs and status.rs: that a success is recorded, over any view of the stored status.
use ipmaze.Base.{
  String, ◌≡◌, refl, sym, ap, ◌∙◌, Option, none, some, List, ok, is_some, map_option, arith,
}
use mathlib.Core.Path.{subst}
use ipmaze.Base.Action.{◌>>=◌, >>=-eq-ok}
use ipmaze.Api.{CidrPolicy, CidrPolicyStatus}
use ipmaze.Networking.{NetworkPolicy}
use ipmaze.Libs.{Libs}
use ipmaze.World.{World, Event}
use ipmaze.Extract.{NormalizedCidr}
use ipmaze.Extract.Order.{renderings}
use ipmaze.Validation.{ValidatedPolicy}
use ipmaze.Status.{
  ReconcileOutcome, reconciled, no_change, failed, succeeded, status_for_outcome, status_source,
  patch_status_for_outcome,
}
use ipmaze.Controller.{prepare, settle, reconcile, Next, classify_outcome, publish_outcome_event}
use ipmaze.Controller.Isolation.{prepare-eq-ok}
use ipmaze.Controller.Rendering.{IsRendered, prepare-IsRendered, reconcile_update}
use ipmaze.Controller.Managed.{publish_policy_event}
use ipmaze.Controller.Requeue.{schedule_requeue_after}

-- What a status tells of the CIDRs and of the latest error.
abbrev pub told_by : Option CidrPolicyStatus → Option (List String × Option String)
told_by = map_option (λ t. (t.last_observed_cidrs, t.last_reconciliation_error))

module _ (L : Libs) (W : World L) (view : W.State → String → String → Option CidrPolicyStatus) where
  open L use {OwnerReference}
  open W use {State, namespace, name_any}

  -- In the view a patch that succeeds stores the status, and an event leaves it.
  pub record Stores (n m : String) : Type 0 where
    pub patched :
        (manager : String) (status : CidrPolicyStatus) (s : State) (u : Unit {0})
        → (W.patch_cidr_policy_status n m manager status s).0 ≡ ok u
        → view ((W.patch_cidr_policy_status n m manager status s).1) n m ≡ some status
    pub kept_by_publish :
        (e : Event W.ObjectReference) (r : W.ObjectReference) (s : State)
        → view ((W.publish e r s).1) n m ≡ view s n m

  module _ (policy : CidrPolicy OwnerReference) (n : String) (S : Stores n (name_any policy)) where
    abbrev told : State → Option (List String × Option String)
    told s = told_by (view s n (name_any policy))

    patch_classified :
        (r : Option (NetworkPolicy OwnerReference)) (np : NetworkPolicy OwnerReference)
        (observed : List String) (s : State) (u : Unit {0})
        → let outcome = classify_outcome L W r np observed in
          (patch_status_for_outcome L W n policy outcome s).0 ≡ ok u
          → told (patch_status_for_outcome L W n policy outcome s).1 ≡ some (observed, none)
    unfolding classify_outcome patch_status_for_outcome status_source status_for_outcome succeeded
    patch_classified r np observed s u h = grind (arith, S.patched)

    publish_outcome_event_keeps :
        (managed : Option (NetworkPolicy OwnerReference)) (outcome : ReconcileOutcome) (s : State)
        → told (publish_outcome_event L W policy managed outcome s).1 ≡ told s
    unfolding publish_outcome_event publish_policy_event
    publish_outcome_event_keeps managed (reconciled observed) s =
        ap told_by (S.kept_by_publish _ (W.object_ref policy) s)
    publish_outcome_event_keeps managed (no_change observed) s = refl
    publish_outcome_event_keeps managed (failed stage message) s = refl

    told-settle :
        (v : ValidatedPolicy L) (np : NetworkPolicy OwnerReference) (observed : List String)
        (s : State) (next : Next)
        → (settle L W policy (v, np, observed, n) s).0 ≡ ok next
        → told (settle L W policy (v, np, observed, n) s).1 ≡ some (observed, none)
    unfolding settle schedule_requeue_after
    told-settle v np observed s next h =
        let patched : (r : Option (NetworkPolicy OwnerReference)) (s₁ : State) (u : Unit {0})
            → (patch_status_for_outcome L W n policy (classify_outcome L W r np observed) s₁).0
              ≡ ok u
            → told (patch_status_for_outcome L W n policy (classify_outcome L W r np observed) s₁).1
              ≡ some (observed, none) =
          λ r s₁ u. patch_classified r np observed s₁ u in
        let kept : (outcome : ReconcileOutcome) (s₁ : State)
            → told (publish_outcome_event L W policy (some np) outcome s₁).1 ≡ told s₁ =
          λ outcome s₁. publish_outcome_event_keeps (some np) outcome s₁ in
        grind (arith, patched, kept)

  -- A success is recorded: the stored status lists the CIDRs of this run, and no error.
  pub record IsRecorded (policy : CidrPolicy OwnerReference) (s s' : State) : Type 0 where
    pub cidrs : List NormalizedCidr
    pub np : NetworkPolicy OwnerReference
    pub rendered : IsRendered L W policy s cidrs np
    pub ns : String
    pub here : namespace policy ≡ some ns
    pub recorded : told_by (view s' ns (name_any policy)) ≡ some (renderings cidrs, none)

  update-IsRecorded :
      (policy : CidrPolicy OwnerReference) (s : State) (next : Next)
      → ((n : String) → namespace policy ≡ some n → Stores n (name_any policy))
      → ((prepare L W policy >>= settle L W policy) s).0 ≡ ok next
      → IsRecorded policy s (((prepare L W policy >>= settle L W policy) s).1)
  update-IsRecorded policy s next S h =
      let end : State = ((prepare L W policy >>= settle L W policy) s).1 in
      let ((v, np, observed, n), s₁, made, settled) =
        >>=-eq-ok (prepare L W policy) (settle L W policy) s {s' = end} (ap (λ x. (x, end)) h) in
      let (here, _) = prepare-eq-ok L W policy s s₁ v np observed n made in
      let (cidrs, rendered, seen) =
        prepare-IsRendered L W policy s v np observed n (ap (λ x. x.0) made) in
      record {
        cidrs = cidrs;
        np = np;
        rendered = rendered;
        ns = n;
        here = here;
        recorded =
            ap (λ x. told policy n (S n here) x.1) (sym settled)
            ∙ told-settle policy n (S n here) v np observed s₁ next (ap (λ x. x.0) settled)
            ∙ ap (λ x. some (x, none)) seen;
      }

  pub IsRecorded-reconcile :
      (policy : CidrPolicy OwnerReference) (s : State) (next : Next)
      → policy.metadata.deletion_timestamp ≡ none
      → ((n : String) → namespace policy ≡ some n → Stores n (name_any policy))
      → (reconcile L W policy s).0 ≡ ok next
      → IsRecorded policy s ((reconcile L W policy s).1)
  IsRecorded-reconcile policy s next staying S h =
      let same = reconcile_update L W policy s (ap is_some staying) in
      subst (λ r. IsRecorded policy s r.1) (sym same)
        (update-IsRecorded policy s next S (ap (λ r. r.0) (sym same) ∙ h))
