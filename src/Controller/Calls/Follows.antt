-- ===== src/Controller/Calls/Follows.antt =====
-- `cleanup` and `reconcile` over a logged world, and the protocol.
use ipmaze.Base.{
  ap, ok_or, is_some_and, ◌=ℕ◌, ap, String, Bool, true, false, ◌≡◌, refl, Option, none, some, List,
  [], Result, ok, err, is_some, if◌then◌else◌, Bool-cases, inl, inr,
}
use ipmaze.Base.Action.{Action, ◌>>=◌, lift, convert, pure}
use ipmaze.Api.{CidrPolicy, managed_network_policy_name}
use ipmaze.Networking.{NetworkPolicy}
use ipmaze.Libs.{Libs}
use ipmaze.World.{World, EventType}
use ipmaze.Validation.{ValidatedPolicy}
use ipmaze.Controller.{cleanup_note, prepare, settle, cleanup, reconcile, await_change}
use ipmaze.Controller.Managed.{
  deletion_result, delete_managed_network_policy, get_managed_network_policy, publish_policy_event,
}
use ipmaze.NetPol.Selector.{missing_namespace}
use ipmaze.Controller.Isolation.{prepare-eq-ok}
use ipmaze.Controller.Errors.{render_error, ReconcileError, kubernetes_api_error}
use ipmaze.Controller.Calls.{Logged, logged}
use ipmaze.Controller.Calls.Protocol.{
  Phase, after_deletion, erase, announce_absence, announce_cleanup, requesting, observed, erased,
  cleaned, stopped, after, Course, start,
}
use ipmaze.Controller.Calls.Reaches.{
  Reaches, At, >>=-Reaches, >>-Reaches, convert-Reaches, ok-Reaches, err-Reaches,
}
use ipmaze.Controller.Calls.Reading.{
  publish_policy_event-Reaches, get_managed_network_policy-Reaches,
}
use ipmaze.Controller.Calls.Settling.{Fits, settle-Reaches}
use ipmaze.Controller.Calls.Requests.{HasAsked, prepare-HasAsked, answered-Course, requests-Course}

module _ (L : Libs) (W : World L) where
  open L use {OwnerReference}
  open W use {namespace}

  abbrev vacated : Option (NetworkPolicy OwnerReference) → Phase L W
  vacated none = observed none
  vacated (some _) = erased

  -- The answer to a deletion, and what is made of it.
  deletion-Reaches :
      (policy : CidrPolicy OwnerReference) (r : Result (Unit {0}) W.KubeError) (s : Logged L W)
      → Course L W policy (after_deletion L W r) s.1
      → Reaches L W policy {E = ReconcileError L (logged L W)}
          (At L W policy erased)
          (deletion_result L (logged L W) r, s)
  unfolding deletion_result
  deletion-Reaches policy (ok a) s c = ok-Reaches L W policy _ erased _ true refl c refl
  deletion-Reaches policy (err e) s c =
      missing_or_not (is_some_and (W.api_code e) (λ code. code =ℕ 404)) c
    where
      missing_or_not :
          (missing : Bool)
          → Course L W policy (if missing then erased else stopped) s.1
          → Reaches L W policy {E = ReconcileError L (logged L W)}
              (At L W policy erased)
              (if missing then ok false else err (kubernetes_api_error e), s)
      missing_or_not true c = ok-Reaches L W policy _ erased _ false refl c refl
      missing_or_not false c = err-Reaches L W policy _ stopped _ _ refl c

  delete-Reaches :
      (policy : CidrPolicy OwnerReference) (n : String)
      (existing : Option (NetworkPolicy OwnerReference)) (s : Logged L W)
      → namespace policy ≡ some n
      → is_some policy.metadata.deletion_timestamp ≡ true
      → Course L W policy (observed existing) s.1
      → Reaches L W policy
          (At L W policy (vacated existing))
          (delete_managed_network_policy L (logged L W) n policy (is_some existing) s)
  unfolding delete_managed_network_policy
  delete-Reaches policy n none s here going c =
      ok-Reaches L W policy _ (observed none) _ false refl c refl
  delete-Reaches policy n (some current) s here going c =
      deletion-Reaches policy _ _ (erase s.1 n current _ here going c)

  announced-Reaches :
      (policy : CidrPolicy OwnerReference) (existing : Option (NetworkPolicy OwnerReference))
      (text : String) (s : Logged L W)
      → is_some policy.metadata.deletion_timestamp ≡ true
      → Course L W policy (vacated existing) s.1
      → Reaches L W policy (At L W policy cleaned) (
          publish_policy_event L
            (logged L W)
            policy
            EventType.normal
            "CleanupManagedPolicy"
            "Cleanup"
            (some text)
            none
            s)
  announced-Reaches policy none text s going c =
      publish_policy_event-Reaches L W policy (λ r. after L W r cleaned) _ _ _ _ _ s
        (λ event r. announce_absence s.1 event r going c)
  announced-Reaches policy (some current) text s going c =
      publish_policy_event-Reaches L W policy (λ r. after L W r cleaned) _ _ _ _ _ s
        (λ event r. announce_cleanup s.1 event r c)

  abbrev said : CidrPolicy OwnerReference → Bool → Action (Logged L W) (Unit {0}) W.KubeError
  said policy gone =
      publish_policy_event L (logged L W) policy EventType.normal "CleanupManagedPolicy" "Cleanup"
        (some (cleanup_note L (logged L W) policy gone)) none

  -- `cleanup` once the namespace is known.
  abbrev clean :
      CidrPolicy OwnerReference
      → String
      → Action (Logged L W) (Unit {0}) (ReconcileError L (logged L W))
  clean policy n = do
    existing ← get_managed_network_policy L (logged L W) n policy "Cleanup"
    gone ← delete_managed_network_policy L (logged L W) n policy (is_some existing)
    convert kubernetes_api_error (said policy gone)

  clean-Reaches :
      (policy : CidrPolicy OwnerReference) (n : String) (s : Logged L W)
      → namespace policy ≡ some n
      → is_some policy.metadata.deletion_timestamp ≡ true
      → Course L W policy requesting s.1
      → Reaches L W policy (At L W policy cleaned) (clean policy n s)
  clean-Reaches policy n s here going c =
      >>=-Reaches L W policy (λ existing. observed existing) (At L W policy cleaned)
        (get_managed_network_policy L (logged L W) n policy "Cleanup")
        (λ existing.
          delete_managed_network_policy L (logged L W) n policy (is_some existing) >>= λ gone.
          convert kubernetes_api_error (said policy gone))
        s (get_managed_network_policy-Reaches L W policy "Cleanup" n s here c)
        (λ existing s₁ c₁.
          >>=-Reaches L W policy (λ _. vacated existing) (At L W policy cleaned)
            (delete_managed_network_policy L (logged L W) n policy (is_some existing))
            (λ gone. convert kubernetes_api_error (said policy gone)) s₁
            (delete-Reaches policy n existing s₁ here going c₁)
            (λ gone s₂ c₂.
              convert-Reaches L W policy (At L W policy cleaned) kubernetes_api_error
                (said policy gone) s₂
                (announced-Reaches policy existing (cleanup_note L (logged L W) policy gone) s₂
                  going c₂)))

  located-Reaches :
      (policy : CidrPolicy OwnerReference) (place : Option String) (s : W.State)
      → namespace policy ≡ place
      → is_some policy.metadata.deletion_timestamp ≡ true
      → Reaches L W policy
          (At L W policy cleaned)
          ((lift (ok_or place (render_error missing_namespace)) >>= clean policy) (s, []))
  located-Reaches policy none s here going =
      err-Reaches L W policy (At L W policy cleaned) requesting _ _ refl start
  located-Reaches policy (some n) s here going = clean-Reaches policy n (s, []) here going start

  cleanup-Reaches :
      (policy : CidrPolicy OwnerReference) (s : W.State)
      → is_some policy.metadata.deletion_timestamp ≡ true
      → Reaches L W policy (At L W policy cleaned) (cleanup L (logged L W) policy (s, []))
  unfolding cleanup
  cleanup-Reaches policy s going = located-Reaches policy (namespace policy) s refl going

  prepared-Reaches :
      (policy : CidrPolicy OwnerReference)
      (p : Result
          (ValidatedPolicy L × NetworkPolicy OwnerReference × List String × String)
          (ReconcileError L (logged L W))
        × Logged L W)
      → is_some policy.metadata.deletion_timestamp ≡ false
      → HasAsked L W p
      → ((v : ValidatedPolicy L) (np : NetworkPolicy OwnerReference) (cidrs : List String)
            (n : String)
          → p.0 ≡ ok (v, np, cidrs, n)
          → (namespace policy ≡ some n)
            × (np.metadata.name ≡ some (managed_network_policy_name policy)))
      → Reaches L W policy (Fits L W) (((λ _. p) >>= settle L (logged L W) policy) p.1)
  prepared-Reaches policy (ok (v, np, cidrs, n), s) staying asked made =
      let (here, named) = made v np cidrs n refl in
      settle-Reaches L W policy v np cidrs n s staying here named
        (answered-Course L W policy s.1 staying asked)
  prepared-Reaches policy (err e, s) staying asked made =
      let (phase, c) = requests-Course L W policy s.1 staying asked in
      err-Reaches L W policy (Fits L W) phase _ e refl c

  -- The calls are a course, which a success has gone to its end.
  pub reconcile-Reaches :
      (policy : CidrPolicy OwnerReference) (s : W.State)
      → Reaches L W policy (Fits L W) (reconcile L (logged L W) policy (s, []))
  unfolding reconcile
  reconcile-Reaches policy s = elim (Bool-cases (is_some policy.metadata.deletion_timestamp)) [
    | inl going ↦ rw going (
        >>-Reaches L W policy (λ _. cleaned) (Fits L W) (cleanup L (logged L W) policy)
          (pure await_change) (s, []) (cleanup-Reaches policy s going)
          (λ _ s₁ c₁. ok-Reaches L W policy (Fits L W) cleaned _ await_change refl c₁ tt))
    | inr staying ↦ rw staying (
        prepared-Reaches policy (prepare L (logged L W) policy (s, [])) staying
          (prepare-HasAsked L W policy s)
          (λ v np cidrs n h.
            prepare-eq-ok L (logged L W) policy (s, []) ((prepare L (logged L W) policy (s, [])).1)
              v np cidrs n (ap (λ r. (r, (prepare L (logged L W) policy (s, [])).1)) h)))
  ]
