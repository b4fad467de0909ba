-- ===== src/Controller/Calls/Settling.antt =====
-- `settle` over a logged world.
use ipmaze.Base.{
  sym, ap, ℕ, String, true, false, ◌≡◌, refl, Option, none, some, List, ◌∷◌, Result, ok, err,
  is_some, Bool-cases, inl, inr,
}
use mathlib.Core.Path.{subst}
use ipmaze.Base.Action.{Action, ◌>>=◌, ◌>>◌, convert, pure}
use ipmaze.Api.{CidrPolicy, managed_network_policy_name}
use ipmaze.Networking.{NetworkPolicy}
use ipmaze.Libs.{Libs}
use ipmaze.World.{World}
use ipmaze.Validation.{ValidatedPolicy}
use ipmaze.NetPol.{field_manager}
use ipmaze.Status.{
  status_for_outcome, status_field_manager, ReconcileOutcome, reconciled, no_change,
  patch_status_for_outcome, status_source,
}
use ipmaze.Controller.{
  settle, Next, await_change, requeue, classify_outcome, apply_outcome, publish_outcome_event,
  managed_policy_matches,
}
use ipmaze.Controller.Managed.{
  get_managed_network_policy, apply_managed_network_policy, name_or_default,
}
use ipmaze.Controller.Requeue.{schedule_requeue_after}
use ipmaze.Controller.Errors.{ReconcileError, kubernetes_api_error}
use ipmaze.Controller.Calls.{applied, patched, Logged, logged}
use ipmaze.Controller.Calls.Protocol.{
  Phase, agrees, requesting, observed, written, recorded, unchanged, announced, cleaned, after,
  Course, write, record_change, announce, record_agreement,
}
use ipmaze.Controller.Calls.Reaches.{
  Reaches, >>=-Reaches, convert->>-Reaches, note_call-Reaches, ok-Reaches, err-Reaches,
}
use ipmaze.Controller.Calls.Reading.{
  publish_policy_event-Reaches, get_managed_network_policy-Reaches,
}

module _ (L : Libs) (W : World L) where
  open L use {OwnerReference}
  open W use {namespace}

  -- A success has gone the whole way.
  abbrev pub Fits : Next → Phase L W → Type 0
  Fits await_change cleaned = Unit
  Fits (requeue _) announced = Unit
  Fits (requeue _) unchanged = Unit
  Fits _ _ = ⊥

  -- What follows the read in `settle`, the last call first.
  module _ (policy : CidrPolicy OwnerReference) (v : ValidatedPolicy L)
      (np : NetworkPolicy OwnerReference) (n : String) where
    abbrev wait : Action (Logged L W) Next (ReconcileError L (logged L W))
    wait = schedule_requeue_after L (logged L W) v.resync_schedule >>= λ delay. pure (requeue delay)

    abbrev tell : ReconcileOutcome → Action (Logged L W) Next (ReconcileError L (logged L W))
    tell outcome =
        convert kubernetes_api_error (publish_outcome_event L (logged L W) policy (some np) outcome)
        >> wait

    abbrev record_outcome :
        ReconcileOutcome → Action (Logged L W) Next (ReconcileError L (logged L W))
    record_outcome outcome =
        convert kubernetes_api_error (patch_status_for_outcome L (logged L W) n policy outcome)
        >> tell outcome

    abbrev act : ReconcileOutcome → Action (Logged L W) Next (ReconcileError L (logged L W))
    act outcome =
        convert kubernetes_api_error (apply_outcome L (logged L W) n np outcome)
        >> record_outcome outcome

    waited-Reaches :
        (phase : Phase L W) (r : Result ℕ (ReconcileError L (logged L W))) (s : Logged L W)
        → ((delay : ℕ) → Fits (requeue delay) phase)
        → Course L W policy phase s.1
        → Reaches L W policy Fits (((λ _. (r, s)) >>= λ delay. pure (requeue delay)) s)
    waited-Reaches phase (ok delay) s fits c =
        ok-Reaches L W policy Fits phase _ (requeue delay) refl c (fits delay)
    waited-Reaches phase (err e) s fits c = err-Reaches L W policy Fits phase _ e refl c

    wait-Reaches :
        (phase : Phase L W) (s : Logged L W)
        → ((delay : ℕ) → Fits (requeue delay) phase)
        → Course L W policy phase s.1
        → Reaches L W policy Fits (wait s)
    unfolding schedule_requeue_after
    wait-Reaches phase s fits c = waited-Reaches phase _ s fits c

    tell-Reaches :
        (observed_cidrs : List String) (s : Logged L W)
        → Course L W policy recorded s.1
        → Reaches L W policy Fits (tell (reconciled observed_cidrs) s)
    unfolding publish_outcome_event
    tell-Reaches cidrs s c =
        convert->>-Reaches L W policy (λ _. announced) Fits kubernetes_api_error
          (publish_outcome_event L (logged L W) policy (some np) (reconciled cidrs)) wait s
          (publish_policy_event-Reaches L W policy (λ r. after L W r announced) _ _ _ _ _ s
            (λ event r. announce s.1 event r c))
          (λ _ s₁ c₁. wait-Reaches announced s₁ (λ _. tt) c₁)

    record_change-Reaches :
        (cidrs : List String) (s : Logged L W)
        → namespace policy ≡ some n
        → Course L W policy written s.1
        → Reaches L W policy Fits (record_outcome (reconciled cidrs) s)
    unfolding patch_status_for_outcome status_source
    record_change-Reaches cidrs s here c =
        let status = status_for_outcome L (logged L W) (W.now s.0) policy (reconciled cidrs) in
        convert->>-Reaches L W policy (λ _. recorded) Fits kubernetes_api_error
          (patch_status_for_outcome L (logged L W) n policy (reconciled cidrs))
          (tell (reconciled cidrs)) s
          (note_call-Reaches L W policy (λ r. after L W r recorded)
            (W.patch_cidr_policy_status n (W.name_any policy) status_field_manager status)
            (λ r. patched n (W.name_any policy) status r) s
            (λ r. record_change s.1 n status r here c))
          (λ _ s₁ c₁. tell-Reaches cidrs s₁ c₁)

    record_agreement-Reaches :
        (current : NetworkPolicy OwnerReference) (cidrs : List String) (s : Logged L W)
        → namespace policy ≡ some n
        → is_some policy.metadata.deletion_timestamp ≡ false
        → managed_policy_matches L W current np ≡ true
        → Course L W policy (observed (some current)) s.1
        → Reaches L W policy Fits (record_outcome (no_change cidrs) s)
    unfolding patch_status_for_outcome status_source publish_outcome_event
    record_agreement-Reaches current cidrs s here staying same c =
        let status = status_for_outcome L (logged L W) (W.now s.0) policy (no_change cidrs) in
        convert->>-Reaches L W policy (λ _. unchanged) Fits kubernetes_api_error
          (patch_status_for_outcome L (logged L W) n policy (no_change cidrs))
          (tell (no_change cidrs)) s
          (note_call-Reaches L W policy (λ r. after L W r unchanged)
            (W.patch_cidr_policy_status n (W.name_any policy) status_field_manager status)
            (λ r. patched n (W.name_any policy) status r) s
            (λ r. record_agreement s.1 n current np status r here staying same c))
          (λ _ s₁ c₁. wait-Reaches unchanged s₁ (λ _. tt) c₁)

    act-Reaches :
        (existing : Option (NetworkPolicy OwnerReference)) (cidrs : List String) (s : Logged L W)
        → namespace policy ≡ some n
        → is_some policy.metadata.deletion_timestamp ≡ false
        → np.metadata.name ≡ some (managed_network_policy_name policy)
        → agrees L W existing np ≡ false
        → Course L W policy (observed existing) s.1
        → Reaches L W policy Fits (act (reconciled cidrs) s)
    unfolding apply_outcome apply_managed_network_policy
    act-Reaches existing cidrs s here staying named differs c =
        let name = name_or_default np.metadata.name in
        let same : name ≡ managed_network_policy_name policy = ap name_or_default named in
        convert->>-Reaches L W policy (λ _. written) Fits kubernetes_api_error
          (apply_outcome L (logged L W) n np (reconciled cidrs)) (record_outcome (reconciled cidrs))
          s
          (note_call-Reaches L W policy (λ r. after L W r written)
            (W.apply_network_policy n name field_manager np) (λ r. applied n name np r) s
            (λ r.
              subst (λ m. Course L W policy (after L W r written) (applied n m np r ∷ s.1))
                (sym same) (write s.1 n existing np r here staying differs c)))
          (λ _ s₁ c₁. record_change-Reaches cidrs s₁ here c₁)

    outcome-Reaches :
        (existing : Option (NetworkPolicy OwnerReference)) (cidrs : List String) (s : Logged L W)
        → namespace policy ≡ some n
        → is_some policy.metadata.deletion_timestamp ≡ false
        → np.metadata.name ≡ some (managed_network_policy_name policy)
        → Course L W policy (observed existing) s.1
        → Reaches L W policy Fits (act (classify_outcome L (logged L W) existing np cidrs) s)
    unfolding classify_outcome managed_policy_matches apply_outcome
    outcome-Reaches none cidrs s here staying named c =
        act-Reaches none cidrs s here staying named refl c
    outcome-Reaches (some current) cidrs s here staying named c =
        elim (Bool-cases (managed_policy_matches L W current np)) [
          | inl same ↦ rw same (record_agreement-Reaches current cidrs s here staying same c)
          | inr differs ↦
              rw differs (act-Reaches (some current) cidrs s here staying named differs c)
        ]

  pub settle-Reaches :
      (policy : CidrPolicy OwnerReference) (v : ValidatedPolicy L)
      (np : NetworkPolicy OwnerReference) (cidrs : List String) (n : String) (s : Logged L W)
      → is_some policy.metadata.deletion_timestamp ≡ false
      → namespace policy ≡ some n
      → np.metadata.name ≡ some (managed_network_policy_name policy)
      → Course L W policy requesting s.1
      → Reaches L W policy Fits (settle L (logged L W) policy (v, np, cidrs, n) s)
  unfolding settle
  settle-Reaches policy v np cidrs n s staying here named c =
      >>=-Reaches L W policy (λ existing. observed existing) Fits
        (get_managed_network_policy L (logged L W) n policy "Reconcile")
        (λ existing. act policy v np n (classify_outcome L (logged L W) existing np cidrs)) s
        (get_managed_network_policy-Reaches L W policy "Reconcile" n s here c)
        (λ existing s₁ c₁. outcome-Reaches policy v np n existing cidrs s₁ here staying named c₁)
