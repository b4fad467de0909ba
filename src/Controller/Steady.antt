-- ===== src/Controller/Steady.antt =====
-- Statements about the outside that a reconciliation keeps: the rule for the calls, one by one, and
-- for the parts of the reconciler that write no NetworkPolicy.
pub mod Writes
pub mod Establishes
use ipmaze.Base.{arith, ◌≡◌, String, true, Option, none, some, ok}
use ipmaze.Api.{CidrPolicy, CidrPolicyStatus, managed_network_policy_name}
use ipmaze.Networking.{NetworkPolicy}
use ipmaze.Libs.{Libs}
use ipmaze.World.{World, Event, EventType}
use ipmaze.Base.Action.{Action}
use ipmaze.Source.{NormalizedRemoteAddress}
use ipmaze.Source.Resolve.{
  fetch_text, parse_json_bytes, fetch_json, resolve_pointer, resolve_final_source,
}
use ipmaze.Status.{
  ReconcileOutcome, reconciled, no_change, failed, status_source, patch_status_for_outcome,
}
use ipmaze.NetPol.{is_managed_network_policy_for}
use ipmaze.Controller.{prepare, publish_outcome_event}
use ipmaze.Controller.Managed.{
  publish_policy_event, report_managed_policy_collision, check_owned, get_managed_network_policy,
}

module _ (L : Libs) (W : World L) (I : W.State → Type 0) where
  open L use {OwnerReference, Regex}
  open W use {State, KubeError, ObjectReference, Response}

  -- The calls that write no NetworkPolicy keep the statement.
  pub record IsQuiet : Type 0 where
    pub by_send : (u : L.Url) (s : State) → I s → I (W.send u s).1
    pub by_text : (r : Response) (s : State) → I s → I (W.text r s).1
    pub by_bytes : (r : Response) (s : State) → I s → I (W.bytes r s).1
    pub by_read : (n m : String) (s : State) → I s → I (W.get_opt_network_policy n m s).1
    pub by_get : (n m : String) (s : State) → I s → I (W.get_cidr_policy n m s).1
    pub by_patch_status :
        (n m manager : String) (status : CidrPolicyStatus) (s : State)
        → I s
        → I (W.patch_cidr_policy_status n m manager status s).1
    pub by_publish :
        (e : Event ObjectReference) (r : ObjectReference) (s : State) → I s → I (W.publish e r s).1

  -- The object that a read has found does not keep the policy from writing.
  abbrev pub IsFree : CidrPolicy OwnerReference → Option (NetworkPolicy OwnerReference) → Type 0
  IsFree policy none = Unit
  IsFree policy (some np) = is_managed_network_policy_for L W policy np ≡ true

  -- So do the calls that write the policy's place, where a read has found it free while the
  -- statement held.
  pub record Tolerates (policy : CidrPolicy OwnerReference) : Type 0 where
    pub quiet : IsQuiet
    pub by_apply :
        (n manager : String) (np : NetworkPolicy OwnerReference) (s₀ s : State)
        (found : Option (NetworkPolicy OwnerReference))
        → W.namespace policy ≡ some n
        → I s₀
        → (W.get_opt_network_policy n (managed_network_policy_name policy) s₀).0 ≡ ok found
        → IsFree policy found
        → I s
        → I (W.apply_network_policy n (managed_network_policy_name policy) manager np s).1
    pub by_delete :
        (n : String) (s₀ s : State) (found : Option (NetworkPolicy OwnerReference))
        → W.namespace policy ≡ some n
        → I s₀
        → (W.get_opt_network_policy n (managed_network_policy_name policy) s₀).0 ≡ ok found
        → IsFree policy found
        → I s
        → I (W.delete_network_policy n (managed_network_policy_name policy) s).1

  abbrev pub Holds : {A E : Type 0} → Action State A E → Type 0
  Holds m = (s : State) → I s → I (m s).1

  module _ (Q : IsQuiet) where
    fetch_text-Holds : (a : NormalizedRemoteAddress L) → Holds (fetch_text L W a)
    unfolding fetch_text
    fetch_text-Holds a s h = grind (arith, Q.by_send, Q.by_text)

    fetch_json-Holds : (a : NormalizedRemoteAddress L) → Holds (fetch_json L W a)
    unfolding fetch_json parse_json_bytes
    fetch_json-Holds a s h = grind (arith, Q.by_send, Q.by_bytes)

    resolve_final_source-Holds :
        (base : NormalizedRemoteAddress L) (pointer : Option Regex)
        → Holds (resolve_final_source L W base pointer)
    unfolding resolve_final_source resolve_pointer
    resolve_final_source-Holds base none s h = h
    resolve_final_source-Holds base (some regex) s h =
        let text = fetch_text-Holds base s h in grind arith

    pub publish_policy_event-Holds :
        (policy : CidrPolicy OwnerReference) (t : EventType) (reason action : String)
        (message : Option String) (secondary : Option (NetworkPolicy OwnerReference))
        → Holds (publish_policy_event L W policy t reason action message secondary)
    unfolding publish_policy_event
    publish_policy_event-Holds policy t reason action message secondary s h =
        Q.by_publish _ (W.object_ref policy) s h

    pub publish_outcome_event-Holds :
        (policy : CidrPolicy OwnerReference) (managed : Option (NetworkPolicy OwnerReference))
        (outcome : ReconcileOutcome)
        → Holds (publish_outcome_event L W policy managed outcome)
    unfolding publish_outcome_event
    publish_outcome_event-Holds policy managed (reconciled observed) s h =
        publish_policy_event-Holds policy EventType.normal _ _ _ managed s h
    publish_outcome_event-Holds policy managed (no_change observed) s h = h
    publish_outcome_event-Holds policy managed (failed stage message) s h = h

    status_source-Holds :
        (n : String) (policy : CidrPolicy OwnerReference) (outcome : ReconcileOutcome)
        → Holds (status_source L W n policy outcome)
    unfolding status_source
    status_source-Holds n policy (reconciled observed) s h = h
    status_source-Holds n policy (no_change observed) s h = h
    status_source-Holds n policy (failed stage message) s h = Q.by_get n (W.name_any policy) s h

    pub patch_status_for_outcome-Holds :
        (n : String) (policy : CidrPolicy OwnerReference) (outcome : ReconcileOutcome)
        → Holds (patch_status_for_outcome L W n policy outcome)
    unfolding patch_status_for_outcome
    patch_status_for_outcome-Holds n policy outcome s h =
        let source = status_source-Holds n policy outcome s h in grind (arith, Q.by_patch_status)

    check_owned-Holds :
        (policy : CidrPolicy OwnerReference) (action : String) (np : NetworkPolicy OwnerReference)
        → Holds (check_owned L W policy action np)
    unfolding check_owned report_managed_policy_collision publish_policy_event
    check_owned-Holds policy action np s h = grind (arith, Q.by_publish)

    pub get_managed_network_policy-Holds :
        (n : String) (policy : CidrPolicy OwnerReference) (action : String)
        → Holds (get_managed_network_policy L W n policy action)
    unfolding get_managed_network_policy
    get_managed_network_policy-Holds n policy action s h =
        let got = Q.by_read n (managed_network_policy_name policy) s h in
        grind (arith, check_owned-Holds)

    pub prepare-Holds : (policy : CidrPolicy OwnerReference) → Holds (prepare L W policy)
    unfolding prepare
    prepare-Holds policy s h = grind (arith, resolve_final_source-Holds, fetch_json-Holds)
