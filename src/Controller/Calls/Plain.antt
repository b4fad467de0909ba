-- ===== src/Controller/Calls/Plain.antt =====
-- A reconciliation over a logged world, beside the same one without the log.
use ipmaze.Base.{
  [], String, Bool, true, false, ◌≡◌, refl, Option, none, some, List, Result, ok, err, arith,
}
use ipmaze.Api.{CidrPolicy}
use ipmaze.Networking.{NetworkPolicy}
use ipmaze.Libs.{Libs}
use ipmaze.World.{World, EventType}
use ipmaze.Source.{NormalizedRemoteAddress}
use ipmaze.Source.Resolve.{fetch_json, resolve_final_source}
use ipmaze.NetPol.{is_managed_network_policy_for}
use ipmaze.Validation.{ValidatedPolicy}
use ipmaze.Status.{ReconcileOutcome, patch_status_for_outcome}
use ipmaze.Controller.{
  prepare, settle, cleanup, reconcile, render_payload, apply_outcome, publish_outcome_event,
}
use ipmaze.Controller.Managed.{
  get_managed_network_policy, check_owned, publish_policy_event, report_managed_policy_collision,
  delete_managed_network_policy, deletion_result,
}
use ipmaze.Controller.Requeue.{schedule_requeue_after}
use ipmaze.Controller.Calls.{Logged, logged}
use ipmaze.Controller.Calls.Copies.{
  fetch_json-IsCopy, resolve_final_source-IsCopy, same_build, same_outcome, apply_outcome-IsCopy,
  patch_status_for_outcome-IsCopy, publish_outcome_event-IsCopy, publish_policy_event-IsCopy,
  same_note,
}
use ipmaze.Controller.Calls.Reaches.{Reaches}
use ipmaze.Controller.Calls.Settling.{Fits}
use ipmaze.Controller.Calls.Follows.{reconcile-Reaches}

module _ (L : Libs) (W : World L) where
  open L use {OwnerReference, Value}

  -- The same value or an error in both, and the same state but for the log.
  abbrev pub Mirrors : {A E E' : Type 0} → Result A E × Logged L W → Result A E' × W.State → Type 0
  Mirrors (ok a, (s, _)) (ok b, t) = (a ≡ b) × (s ≡ t)
  Mirrors (err _, (s, _)) (err _, t) = s ≡ t
  Mirrors _ _ = ⊥

  prepare-Mirrors :
      (policy : CidrPolicy OwnerReference) (s : Logged L W)
      → Mirrors (prepare L (logged L W) policy s) (prepare L W policy s.0)
  unfolding prepare render_payload
  prepare-Mirrors policy s =
      let resolved : (a : NormalizedRemoteAddress L) (pointer : Option L.Regex)
          → (resolve_final_source L (logged L W) a pointer s).0
            ≡ (resolve_final_source L W a pointer s.0).0 =
        λ a pointer. (resolve_final_source-IsCopy L W a pointer s).0 in
      let resolved_state : (a : NormalizedRemoteAddress L) (pointer : Option L.Regex)
          → ((resolve_final_source L (logged L W) a pointer s).1).0
            ≡ (resolve_final_source L W a pointer s.0).1 =
        λ a pointer. (resolve_final_source-IsCopy L W a pointer s).1 in
      let fetched : (a : NormalizedRemoteAddress L) (s₁ : Logged L W)
          → (fetch_json L (logged L W) a s₁).0 ≡ (fetch_json L W a s₁.0).0 =
        λ a s₁. (fetch_json-IsCopy L W a s₁).0 in
      let fetched_state : (a : NormalizedRemoteAddress L) (s₁ : Logged L W)
          → ((fetch_json L (logged L W) a s₁).1).0 ≡ (fetch_json L W a s₁.0).1 =
        λ a s₁. (fetch_json-IsCopy L W a s₁).1 in
      grind (arith, resolved, resolved_state, fetched, fetched_state, same_build L W)

  get_managed_network_policy-Mirrors :
      (n : String) (policy : CidrPolicy OwnerReference) (action : String) (s : Logged L W)
      → Mirrors
          (get_managed_network_policy L (logged L W) n policy action s)
          (get_managed_network_policy L W n policy action s.0)
  unfolding get_managed_network_policy check_owned report_managed_policy_collision
      publish_policy_event is_managed_network_policy_for
  get_managed_network_policy-Mirrors n policy action s = ground arith

  settle-Mirrors :
      (policy : CidrPolicy OwnerReference)
      (x : ValidatedPolicy L × NetworkPolicy OwnerReference × List String × String) (s : Logged L W)
      → Mirrors (settle L (logged L W) policy x s) (settle L W policy x s.0)
  unfolding settle schedule_requeue_after
  settle-Mirrors policy (v, np, observed, n) s =
      let got = get_managed_network_policy-Mirrors n policy "Reconcile" s in
      let applied : (outcome : ReconcileOutcome) (s₁ : Logged L W)
          → (apply_outcome L (logged L W) n np outcome s₁).0
            ≡ (apply_outcome L W n np outcome s₁.0).0 =
        λ outcome s₁. (apply_outcome-IsCopy L W n np outcome s₁).0 in
      let applied_state : (outcome : ReconcileOutcome) (s₁ : Logged L W)
          → ((apply_outcome L (logged L W) n np outcome s₁).1).0
            ≡ (apply_outcome L W n np outcome s₁.0).1 =
        λ outcome s₁. (apply_outcome-IsCopy L W n np outcome s₁).1 in
      let patched : (outcome : ReconcileOutcome) (s₁ : Logged L W)
          → (patch_status_for_outcome L (logged L W) n policy outcome s₁).0
            ≡ (patch_status_for_outcome L W n policy outcome s₁.0).0 =
        λ outcome s₁. (patch_status_for_outcome-IsCopy L W n policy outcome s₁).0 in
      let patched_state : (outcome : ReconcileOutcome) (s₁ : Logged L W)
          → ((patch_status_for_outcome L (logged L W) n policy outcome s₁).1).0
            ≡ (patch_status_for_outcome L W n policy outcome s₁.0).1 =
        λ outcome s₁. (patch_status_for_outcome-IsCopy L W n policy outcome s₁).1 in
      let told : (outcome : ReconcileOutcome) (s₁ : Logged L W)
          → (publish_outcome_event L (logged L W) policy (some np) outcome s₁).0
            ≡ (publish_outcome_event L W policy (some np) outcome s₁.0).0 =
        λ outcome s₁. (publish_outcome_event-IsCopy L W policy (some np) outcome s₁).0 in
      let told_state : (outcome : ReconcileOutcome) (s₁ : Logged L W)
          → ((publish_outcome_event L (logged L W) policy (some np) outcome s₁).1).0
            ≡ (publish_outcome_event L W policy (some np) outcome s₁.0).1 =
        λ outcome s₁. (publish_outcome_event-IsCopy L W policy (some np) outcome s₁).1 in
      grind (
        arith,
        got,
        same_outcome L W,
        applied,
        applied_state,
        patched,
        patched_state,
        told,
        told_state,
      )

  delete_managed_network_policy-Mirrors :
      (n : String) (policy : CidrPolicy OwnerReference) (existing : Bool) (s : Logged L W)
      → Mirrors
          (delete_managed_network_policy L (logged L W) n policy existing s)
          (delete_managed_network_policy L W n policy existing s.0)
  unfolding delete_managed_network_policy deletion_result
  delete_managed_network_policy-Mirrors n policy false s = (refl, refl)
  delete_managed_network_policy-Mirrors n policy true s = ground arith

  cleanup-Mirrors :
      (policy : CidrPolicy OwnerReference) (s : Logged L W)
      → Mirrors (cleanup L (logged L W) policy s) (cleanup L W policy s.0)
  unfolding cleanup
  cleanup-Mirrors policy s =
      let told : (text : String) (s₁ : Logged L W)
          → (publish_policy_event L (logged L W) policy EventType.normal "CleanupManagedPolicy"
              "Cleanup" (some text) none s₁).0
            ≡ (publish_policy_event L W policy EventType.normal "CleanupManagedPolicy" "Cleanup"
                (some text) none s₁.0).0 =
        λ text s₁. (publish_policy_event-IsCopy L W policy text s₁).0 in
      let told_state : (text : String) (s₁ : Logged L W)
          → ((publish_policy_event L (logged L W) policy EventType.normal "CleanupManagedPolicy"
              "Cleanup" (some text) none s₁).1
            ).0
            ≡ (publish_policy_event L W policy EventType.normal "CleanupManagedPolicy" "Cleanup"
                (some text) none s₁.0).1 =
        λ text s₁. (publish_policy_event-IsCopy L W policy text s₁).1 in
      let got : (n : String)
          → Mirrors (get_managed_network_policy L (logged L W) n policy "Cleanup" s)
              (get_managed_network_policy L W n policy "Cleanup" s.0) =
        λ n. get_managed_network_policy-Mirrors n policy "Cleanup" s in
      let deleted : (n : String) (existing : Bool) (s₁ : Logged L W)
          → Mirrors (delete_managed_network_policy L (logged L W) n policy existing s₁)
              (delete_managed_network_policy L W n policy existing s₁.0) =
        λ n existing s₁. delete_managed_network_policy-Mirrors n policy existing s₁ in
      grind (arith, got, deleted, told, told_state, same_note L W)

  reconcile-Mirrors :
      (policy : CidrPolicy OwnerReference) (s : Logged L W)
      → Mirrors (reconcile L (logged L W) policy s) (reconcile L W policy s.0)
  unfolding reconcile
  reconcile-Mirrors policy s = grind (arith, prepare-Mirrors, settle-Mirrors, cleanup-Mirrors)

  -- The calls that `reconcile` makes, of whatever CIDRPolicy, in whatever state of the outside and
  -- whatever the outside answers, are a course of the protocol; when it succeeds, they have reached
  -- the end of it: a recorded status and an event after an applied object, a recorded status
  -- alone after an object that agrees, or, of a CIDRPolicy being deleted, the event of the clean-up.
  -- The log that tells them changes nothing: without it `reconcile` returns the same action, or an
  -- error in both, and leaves the same state.
  pub reconcile-IsCourse :
      (policy : CidrPolicy OwnerReference) (s : W.State)
      → Reaches L W policy (Fits L W) (reconcile L (logged L W) policy (s, []))
        × Mirrors (reconcile L (logged L W) policy (s, [])) (reconcile L W policy s)
  reconcile-IsCourse policy s = (reconcile-Reaches L W policy s, reconcile-Mirrors policy (s, []))
