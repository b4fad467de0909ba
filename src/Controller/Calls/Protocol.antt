-- ===== src/Controller/Calls/Protocol.antt =====
-- The order in which `reconcile` may make its calls, as a step relation on phases.
use ipmaze.Base.{
  String, Bool, true, false, ◌≡◌, Option, none, some, List, [], ◌∷◌, Result, ok, err, is_some,
  if◌then◌else◌, ◌=ℕ◌, is_some_and,
}
use ipmaze.Api.{CidrPolicy, CidrPolicyStatus, managed_network_policy_name}
use ipmaze.Networking.{NetworkPolicy}
use ipmaze.Libs.{Libs}
use ipmaze.World.{World, Event}
use ipmaze.NetPol.{is_managed_network_policy_for}
use ipmaze.Controller.{managed_policy_matches}
use ipmaze.Controller.Calls.{
  Call, sent, received, read_policy, applied, deleted, patched, published,
}

module _ (L : Libs) (W : World L) where
  open L use {OwnerReference}
  open W use {Response, KubeError, ObjectReference, namespace, name_any, api_code}

  -- What has been reached: `observed` holds what the policy's place was seen to hold, an object of
  -- the policy's or none; `refused` is a place that another object takes.
  pub data Phase : Type 0 where
    requesting : Phase
    observed : Option (NetworkPolicy OwnerReference) → Phase
    refused written erased recorded unchanged announced cleaned stopped : Phase

  -- A call that fails ends the reconciliation.
  abbrev pub after : {A E : Type 0} → Result A E → Phase → Phase
  after (ok _) phase = phase
  after (err _) phase = stopped

  -- A deletion that finds nothing is no failure.
  abbrev pub after_deletion : Result (Unit {0}) KubeError → Phase
  after_deletion (ok _) = erased
  after_deletion (err e) =
      if is_some_and (api_code e) (λ code. code =ℕ 404) then erased else stopped

  abbrev pub seen :
      CidrPolicy OwnerReference → Result (Option (NetworkPolicy OwnerReference)) KubeError → Phase
  seen policy (ok none) = observed none
  seen policy (ok (some np)) =
      if is_managed_network_policy_for L W policy np then observed (some np) else refused
  seen policy (err e) = stopped

  -- What the place holds needs no change.
  abbrev pub agrees : Option (NetworkPolicy OwnerReference) → NetworkPolicy OwnerReference → Bool
  agrees none desired = false
  agrees (some current) desired = managed_policy_matches L W current desired

  pub data Course (policy : CidrPolicy OwnerReference) : Phase → List (Call L W) → Type 0 where
    start : Course policy requesting []
    send :
        (log : List (Call L W)) (url : L.Url) (r : Result Response L.HttpError)
        → is_some policy.metadata.deletion_timestamp ≡ false
        → Course policy requesting log
        → Course policy (after r requesting) (sent url r ∷ log)
    receive :
        (log : List (Call L W)) (response : Response) (whole : Bool)
        → Course policy requesting log
        → Course policy (if whole then requesting else stopped) (received response whole ∷ log)
    look :
        (log : List (Call L W)) (ns : String)
        (r : Result (Option (NetworkPolicy OwnerReference)) KubeError)
        → namespace policy ≡ some ns
        → Course policy requesting log
        → Course policy
            (seen policy r)
            (read_policy ns (managed_network_policy_name policy) r ∷ log)
    write :
        (log : List (Call L W)) (ns : String) (existing : Option (NetworkPolicy OwnerReference))
        (desired : NetworkPolicy OwnerReference) (r : Result (Unit {0}) KubeError)
        → namespace policy ≡ some ns
        → is_some policy.metadata.deletion_timestamp ≡ false
        → agrees existing desired ≡ false
        → Course policy (observed existing) log
        → Course policy
            (after r written)
            (applied ns (managed_network_policy_name policy) desired r ∷ log)
    erase :
        (log : List (Call L W)) (ns : String) (current : NetworkPolicy OwnerReference)
        (r : Result (Unit {0}) KubeError)
        → namespace policy ≡ some ns
        → is_some policy.metadata.deletion_timestamp ≡ true
        → Course policy (observed (some current)) log
        → Course policy (after_deletion r) (deleted ns (managed_network_policy_name policy) r ∷ log)
    record_change :
        (log : List (Call L W)) (ns : String) (status : CidrPolicyStatus)
        (r : Result (Unit {0}) KubeError)
        → namespace policy ≡ some ns
        → Course policy written log
        → Course policy (after r recorded) (patched ns (name_any policy) status r ∷ log)
    record_agreement :
        (log : List (Call L W)) (ns : String) (current : NetworkPolicy OwnerReference)
        (desired : NetworkPolicy OwnerReference) (status : CidrPolicyStatus)
        (r : Result (Unit {0}) KubeError)
        → namespace policy ≡ some ns
        → is_some policy.metadata.deletion_timestamp ≡ false
        → managed_policy_matches L W current desired ≡ true
        → Course policy (observed (some current)) log
        → Course policy (after r unchanged) (patched ns (name_any policy) status r ∷ log)
    announce :
        (log : List (Call L W)) (event : Event ObjectReference) (r : Result (Unit {0}) KubeError)
        → Course policy recorded log
        → Course policy (after r announced) (published event r ∷ log)
    warn :
        (log : List (Call L W)) (event : Event ObjectReference) (r : Result (Unit {0}) KubeError)
        → Course policy refused log
        → Course policy stopped (published event r ∷ log)
    announce_absence :
        (log : List (Call L W)) (event : Event ObjectReference) (r : Result (Unit {0}) KubeError)
        → is_some policy.metadata.deletion_timestamp ≡ true
        → Course policy (observed none) log
        → Course policy (after r cleaned) (published event r ∷ log)
    announce_cleanup :
        (log : List (Call L W)) (event : Event ObjectReference) (r : Result (Unit {0}) KubeError)
        → Course policy erased log
        → Course policy (after r cleaned) (published event r ∷ log)
