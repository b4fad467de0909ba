-- ===== src/Controller/Calls/Reading.antt =====
-- The events, and the read of the managed object, over a logged world.
use ipmaze.Base.{
  String, Bool, true, false, ◌≡◌, refl, Option, none, some, ◌∷◌, Result, ok, if◌then◌else◌,
  map_option,
}
use ipmaze.Base.Action.{Action, ◌>>◌, convert, pure, throw}
use ipmaze.Api.{CidrPolicy, managed_network_policy_name}
use ipmaze.Networking.{NetworkPolicy}
use ipmaze.Libs.{Libs}
use ipmaze.World.{World, EventType, Event}
use ipmaze.NetPol.{is_managed_network_policy_for}
use ipmaze.Controller.Managed.{
  get_managed_network_policy, check_owned, publish_policy_event, report_managed_policy_collision,
}
use ipmaze.Controller.Errors.{ReconcileError, kubernetes_api_error, managed_policy_collision_error}
use ipmaze.Controller.Calls.{read_policy, published, Logged, logged}
use ipmaze.Controller.Calls.Protocol.{
  Phase, seen, requesting, observed, refused, stopped, Course, look, warn,
}
use ipmaze.Controller.Calls.Reaches.{
  Reaches, At, convert->>-Reaches, convert->>=-Reaches, note_call-Reaches, ok-Reaches, err-Reaches,
}

module _ (L : Libs) (W : World L) where
  open L use {OwnerReference}
  open W use {namespace}

  abbrev pub Found :
      CidrPolicy OwnerReference → Option (NetworkPolicy OwnerReference) → Phase L W → Type 0
  Found policy existing phase = observed existing ≡ phase

  -- An event, whatever phase it leads to.
  pub publish_policy_event-Reaches :
      (policy : CidrPolicy OwnerReference) (phase_of : Result (Unit {0}) W.KubeError → Phase L W)
      (type_ : EventType) (reason action : String) (text : Option String)
      (secondary : Option (NetworkPolicy OwnerReference)) (s : Logged L W)
      → ((event : Event W.ObjectReference) (r : Result (Unit {0}) W.KubeError)
          → Course L W policy (phase_of r) (published event r ∷ s.1))
      → Reaches L W policy
          (At L W policy (phase_of (ok tt)))
          (publish_policy_event L (logged L W) policy type_ reason action text secondary s)
  unfolding publish_policy_event
  publish_policy_event-Reaches policy phase_of type_ reason action text secondary s c =
      let event : Event W.ObjectReference = record {
        type_ = type_;
        reason = reason;
        note = text;
        action = action;
        secondary = map_option W.network_policy_ref secondary;
      } in
      note_call-Reaches L W policy phase_of (W.publish event (W.object_ref policy))
        (λ r. published event r) s (λ r. c event r)

  refusal-Reaches :
      (policy : CidrPolicy OwnerReference) (action : String) (np : NetworkPolicy OwnerReference)
      (s : Logged L W)
      → Course L W policy refused s.1
      → Reaches L W policy {E = ReconcileError L (logged L W)} (Found policy) (
          (convert kubernetes_api_error
                (report_managed_policy_collision L (logged L W) policy np action)
              >> throw (managed_policy_collision_error (managed_network_policy_name policy)))
            s)
  unfolding report_managed_policy_collision
  refusal-Reaches policy action np s c =
      convert->>-Reaches L W policy (λ _. stopped) (Found policy) kubernetes_api_error
        (report_managed_policy_collision L (logged L W) policy np action)
        (throw (managed_policy_collision_error (managed_network_policy_name policy))) s
        (publish_policy_event-Reaches policy (λ _. stopped) _ _ _ _ _ s
          (λ event r. warn s.1 event r c))
        (λ _ s₁ c₁. err-Reaches L W policy (Found policy) stopped _ _ refl c₁)

  -- The test and what follows it.
  owned-Reaches :
      (policy : CidrPolicy OwnerReference) (action : String) (np : NetworkPolicy OwnerReference)
      (s : Logged L W) (ours : Bool)
      → Course L W policy (if ours then observed (some np) else refused) s.1
      → Reaches L W policy {E = ReconcileError L (logged L W)} (Found policy) (
          (if ours
              then pure (some np)
              else convert kubernetes_api_error
                  (report_managed_policy_collision L (logged L W) policy np action)
                >> throw (managed_policy_collision_error (managed_network_policy_name policy)))
            s)
  owned-Reaches policy action np s true c =
      ok-Reaches L W policy (Found policy) (observed (some np)) _ (some np) refl c refl
  owned-Reaches policy action np s false c = refusal-Reaches policy action np s c

  check_owned-Reaches :
      (policy : CidrPolicy OwnerReference) (action : String) (np : NetworkPolicy OwnerReference)
      (s : Logged L W)
      → Course L W policy (seen L W policy (ok (some np))) s.1
      → Reaches L W policy (Found policy) (check_owned L (logged L W) policy action np s)
  unfolding check_owned is_managed_network_policy_for
  check_owned-Reaches policy action np s c =
      owned-Reaches policy action np s (is_managed_network_policy_for L W policy np) c

  looked-Reaches :
      (policy : CidrPolicy OwnerReference) (action : String)
      (existing : Option (NetworkPolicy OwnerReference)) (s : Logged L W)
      → Course L W policy (seen L W policy (ok existing)) s.1
      → Reaches L W policy (Found policy) (
          (elim existing
              as (λ _.
                Action
                  (Logged L W)
                  (Option (NetworkPolicy OwnerReference))
                  (ReconcileError L (logged L W))) [
                    | some np ↦ check_owned L (logged L W) policy action np
                    | none ↦ pure none
                  ])
            s)
  looked-Reaches policy action none s c =
      ok-Reaches L W policy (Found policy) (observed none) _ none refl c refl
  looked-Reaches policy action (some np) s c = check_owned-Reaches policy action np s c

  pub get_managed_network_policy-Reaches :
      (policy : CidrPolicy OwnerReference) (action n : String) (s : Logged L W)
      → namespace policy ≡ some n
      → Course L W policy requesting s.1
      → Reaches L W policy
          (Found policy)
          (get_managed_network_policy L (logged L W) n policy action s)
  unfolding get_managed_network_policy
  get_managed_network_policy-Reaches policy action n s here c =
      convert->>=-Reaches L W policy (λ existing. seen L W policy (ok existing)) (Found policy)
        kubernetes_api_error
        ((logged L W).get_opt_network_policy n (managed_network_policy_name policy))
        (λ existing. elim existing [
          | some np ↦ check_owned L (logged L W) policy action np
          | none ↦ pure none
        ])
        s
        (note_call-Reaches L W policy (λ r. seen L W policy r)
          (W.get_opt_network_policy n (managed_network_policy_name policy))
          (λ r. read_policy n (managed_network_policy_name policy) r) s (λ r. look s.1 n r here c))
        (λ existing s₁ c₁. looked-Reaches policy action existing s₁ c₁)
