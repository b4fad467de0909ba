-- ===== src/Controller/Cluster/Keeps.antt =====
-- Actions that leave the NetworkPolicy objects of some namespaces and names as they are: the
-- combinators, the requests, and the parts of the reconciler that write no NetworkPolicy.
use ipmaze.Base.{arith, String, ◌≡◌, refl, ◌∙◌, Option, none, some, Result, ok, err}
use ipmaze.Base.Action.{Action, ◌>>=◌, pure, convert}
use ipmaze.Api.{CidrPolicy, managed_network_policy_name}
use ipmaze.Networking.{NetworkPolicy}
use ipmaze.Libs.{Libs}
use ipmaze.World.{World, EventType}
use ipmaze.Source.{NormalizedRemoteAddress}
use ipmaze.Source.Resolve.{
  fetch_text, parse_json_bytes, fetch_json, resolve_pointer, resolve_final_source,
}
use ipmaze.Status.{
  ReconcileOutcome, reconciled, no_change, failed, status_source, patch_status_for_outcome,
}
use ipmaze.Controller.Cluster.{Cluster}
use ipmaze.Controller.Errors.{ReconcileError, kubernetes_api_error}
use ipmaze.Controller.Managed.{
  publish_policy_event, report_managed_policy_collision, check_owned, get_managed_network_policy,
}

module _ (L : Libs) (W : World L) (C : Cluster L W) (P : String → String → Type 0) where
  open L use {OwnerReference, Regex}
  open W use {State, KubeError}
  open C use {netpol_at}

  -- Two states have the same objects in the region `P`.
  abbrev pub Same : State → State → Type 0
  Same s s' = (ns name : String) → P ns name → netpol_at s' ns name ≡ netpol_at s ns name

  -- An action keeps the objects when it runs from this state.
  abbrev pub KeepsFrom : {A E : Type 0} → State → Action State A E → Type 0
  KeepsFrom s m = Same s (m s).1

  abbrev pub Keeps : {A E : Type 0} → Action State A E → Type 0
  Keeps m = (s : State) → KeepsFrom s m

  module _ {A B E : Type 0} where
    bind_pair :
        (p : Result A E × State) (f : A → Action State B E) (s : State)
        → Same s p.1
        → ((a : A) (s₁ : State) → p ≡ (ok a, s₁) → KeepsFrom s₁ (f a))
        → Same s (((λ _. p) >>= f) s).1
    bind_pair (ok a, s₁) f s h k = λ ns name inside. k a s₁ refl ns name inside ∙ h ns name inside
    bind_pair (err e, s₁) f s h k = h

    pub >>=-KeepsFrom :
        (m : Action State A E) (f : A → Action State B E) (s : State)
        → KeepsFrom s m
        → ((a : A) (s₁ : State) → m s ≡ (ok a, s₁) → KeepsFrom s₁ (f a))
        → KeepsFrom s (m >>= f)
    >>=-KeepsFrom m f s h k = bind_pair (m s) f s h k

    pub >>=-Keeps :
        (m : Action State A E) (f : A → Action State B E)
        → Keeps m
        → ((a : A) → Keeps (f a))
        → Keeps (m >>= f)
    >>=-Keeps m f h k s = >>=-KeepsFrom m f s (h s) (λ a s₁ _. k a s₁)

    convert_pair :
        (g : E → B) (p : Result A E × State) (s : State)
        → Same s p.1
        → Same s (convert g (λ _. p) s).1
    convert_pair g (ok a, s₁) s h = h
    convert_pair g (err e, s₁) s h = h

    pub convert-Keeps : (g : E → B) (m : Action State A E) → Keeps m → Keeps (convert g m)
    convert-Keeps g m h s = convert_pair g (m s) s (h s)

  -- The requests.
  pub fetch_text-Keeps : (a : NormalizedRemoteAddress L) → Keeps (fetch_text L W a)
  unfolding fetch_text
  fetch_text-Keeps a s ns name _ = grind (arith, C.kept_by_send, C.kept_by_text)

  pub fetch_json-Keeps : (a : NormalizedRemoteAddress L) → Keeps (fetch_json L W a)
  unfolding fetch_json parse_json_bytes
  fetch_json-Keeps a s ns name _ = grind (arith, C.kept_by_send, C.kept_by_bytes)

  pub resolve_final_source-Keeps :
      (base : NormalizedRemoteAddress L) (pointer : Option Regex)
      → Keeps (resolve_final_source L W base pointer)
  unfolding resolve_final_source resolve_pointer
  resolve_final_source-Keeps base none s ns name inside = refl
  resolve_final_source-Keeps base (some regex) s ns name inside =
      let text = fetch_text-Keeps base s ns name inside in grind (arith)

  -- Events and status.
  pub publish_policy_event-Keeps :
      (policy : CidrPolicy OwnerReference) (t : EventType) (reason action : String)
      (message : Option String) (secondary : Option (NetworkPolicy OwnerReference))
      → Keeps (publish_policy_event L W policy t reason action message secondary)
  unfolding publish_policy_event
  publish_policy_event-Keeps policy t reason action message secondary s ns name _ =
      C.kept_by_publish _ (W.object_ref policy) s ns name

  status_source-Keeps :
      (n : String) (policy : CidrPolicy OwnerReference) (outcome : ReconcileOutcome)
      → Keeps (status_source L W n policy outcome)
  unfolding status_source
  status_source-Keeps n policy (reconciled observed) s ns name _ = refl
  status_source-Keeps n policy (no_change observed) s ns name _ = refl
  status_source-Keeps n policy (failed stage message) s ns name _ =
      C.kept_by_get n (W.name_any policy) s ns name

  pub patch_status_for_outcome-Keeps :
      (n : String) (policy : CidrPolicy OwnerReference) (outcome : ReconcileOutcome)
      → Keeps (patch_status_for_outcome L W n policy outcome)
  unfolding patch_status_for_outcome
  patch_status_for_outcome-Keeps n policy outcome s ns name inside =
      let source = status_source-Keeps n policy outcome s ns name inside in
      grind (arith, C.kept_by_patch_status)

  -- Reading the managed policy.
  check_owned-Keeps :
      (policy : CidrPolicy OwnerReference) (action : String) (np : NetworkPolicy OwnerReference)
      → Keeps (check_owned L W policy action np)
  unfolding check_owned report_managed_policy_collision publish_policy_event
  check_owned-Keeps policy action np s ns name inside = grind (arith, C.kept_by_publish)

  abbrev owned :
      CidrPolicy OwnerReference
      → String
      → Option (NetworkPolicy OwnerReference)
      → Action State (Option (NetworkPolicy OwnerReference)) (ReconcileError L W)
  owned policy action (some np) = check_owned L W policy action np
  owned policy action none = pure none

  owned-Keeps :
      (policy : CidrPolicy OwnerReference) (action : String)
      (found : Option (NetworkPolicy OwnerReference))
      → Keeps (owned policy action found)
  owned-Keeps policy action none s = λ ns name _. refl
  owned-Keeps policy action (some np) s = check_owned-Keeps policy action np s

  pub get_managed_network_policy-Keeps :
      (n : String) (policy : CidrPolicy OwnerReference) (action : String)
      → Keeps (get_managed_network_policy L W n policy action)
  unfolding get_managed_network_policy
  get_managed_network_policy-Keeps n policy action =
      let found = W.get_opt_network_policy n (managed_network_policy_name policy) in
      >>=-Keeps (convert {F = ReconcileError L W} kubernetes_api_error found) (owned policy action)
        (convert-Keeps {B = ReconcileError L W} kubernetes_api_error found
          (λ s ns name _. C.kept_by_read n (managed_network_policy_name policy) s ns name))
        (owned-Keeps policy action)
