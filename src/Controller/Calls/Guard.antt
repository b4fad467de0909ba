-- ===== src/Controller/Calls/Guard.antt =====
-- What the protocol says of the writes.
use ipmaze.Base.{
  is_some_and, ◌=ℕ◌, String, Bool, true, false, ◌≡◌, refl, Option, none, some, List, [], ◌∷◌,
  Result, ok, err, inl, inr, Bool-cases,
}
use ipmaze.Api.{CidrPolicy, managed_network_policy_name}
use ipmaze.Networking.{NetworkPolicy}
use ipmaze.Libs.{Libs}
use ipmaze.World.{World}
use ipmaze.NetPol.{is_managed_network_policy_for}
use ipmaze.Controller.{reconcile}
use ipmaze.Controller.Calls.{Call, sent, read_policy, applied, deleted, logged}
use ipmaze.Controller.Calls.Protocol.{
  Phase, Course, start, send, receive, look, write, erase, record_change, record_agreement,
  announce, announce_absence, announce_cleanup, warn, after, seen, observed, after_deletion,
  requesting, written, recorded, unchanged, announced, cleaned,
}
use ipmaze.Controller.Calls.Reaches.{Reaches}
use ipmaze.Controller.Calls.Settling.{Fits}
use ipmaze.Controller.Calls.Follows.{reconcile-Reaches}

module _ (L : Libs) (W : World L) (policy : CidrPolicy L.OwnerReference) where
  open L use {OwnerReference}
  open W use {namespace}

  -- The place that a call writes is the policy's.
  abbrev IsPlace : String → String → Type 0
  IsPlace ns name = (namespace policy ≡ some ns) × (name ≡ managed_network_policy_name policy)

  -- The last call has read the place, and found no object or one of the policy's.
  abbrev IsFree : String → String → List (Call L W) → Type 0
  IsFree ns name (read_policy ns' name' (ok none) ∷ _) = (ns' ≡ ns) × (name' ≡ name)
  IsFree ns name (read_policy ns' name' (ok (some np)) ∷ _) =
      (ns' ≡ ns) × (name' ≡ name) × (is_managed_network_policy_for L W policy np ≡ true)
  IsFree ns name _ = ⊥

  -- No object has been applied or deleted.
  abbrev has_written : List (Call L W) → Bool
  has_written [] = false
  has_written (applied _ _ _ _ ∷ _) = true
  has_written (deleted _ _ _ ∷ _) = true
  has_written (_ ∷ log) = has_written log

  -- Only a place of the policy that is free is written, and it is written once.
  abbrev pub IsGuarded : List (Call L W) → Type 0
  IsGuarded [] = Unit
  IsGuarded (applied ns name np r ∷ log) =
      IsPlace ns name × IsFree ns name log × (has_written log ≡ false)
  IsGuarded (deleted ns name r ∷ log) =
      IsPlace ns name × IsFree ns name log × (has_written log ≡ false)
  IsGuarded (_ ∷ log) = IsGuarded log

  abbrev Says : Phase L W → List (Call L W) → Type 0
  Says Phase.requesting log = has_written log ≡ false
  Says (observed e) log =
      (has_written log ≡ false)
      × ((ns : String)
          → namespace policy ≡ some ns
          → IsFree ns (managed_network_policy_name policy) log)
  Says _ log = Unit

  Says-after :
      {E A : Type 0} (r : Result A E) (phase : Phase L W) (log : List (Call L W))
      → Says phase log
      → Says (after L W r phase) log
  Says-after (ok _) phase log h = h
  Says-after (err _) phase log h = tt

  same : (n m : String) → namespace policy ≡ some n → namespace policy ≡ some m → n ≡ m
  same n m here there = cc

  Says-seen :
      (ns : String) (r : Result (Option (NetworkPolicy OwnerReference)) W.KubeError)
      (log : List (Call L W))
      → namespace policy ≡ some ns
      → has_written log ≡ false
      → Says (seen L W policy r) (read_policy ns (managed_network_policy_name policy) r ∷ log)
  Says-seen ns (ok none) log here unwritten = (unwritten, λ m there. (same ns m here there, refl))
  Says-seen ns (ok (some np)) log here unwritten =
      elim (Bool-cases (is_managed_network_policy_for L W policy np)) [
        | inl ours ↦ rw ours (unwritten, λ m there. (same ns m here there, refl, ours))
        | inr foreign ↦ rw foreign tt
      ]
  Says-seen ns (err e) log here unwritten = tt

  Says-after_deletion :
      (r : Result (Unit {0}) W.KubeError) (log : List (Call L W)) → Says (after_deletion L W r) log
  Says-after_deletion (ok _) log = tt
  Says-after_deletion (err e) log =
      elim (Bool-cases (is_some_and (W.api_code e) (λ code. code =ℕ 404))) [
        | inl missing ↦ rw missing tt
        | inr other ↦ rw other tt
      ]

  Course-Says :
      (phase : Phase L W) (log : List (Call L W)) → Course L W policy phase log → Says phase log
  Course-Says phase log start = refl
  Course-Says phase log (send rest url r _ c) =
      Says-after r requesting (sent url r ∷ rest) (Course-Says requesting rest c)
  Course-Says phase log (receive rest response true c) = Course-Says requesting rest c
  Course-Says phase log (receive rest response false c) = tt
  Course-Says phase log (look rest ns r here c) =
      Says-seen ns r rest here (Course-Says requesting rest c)
  Course-Says phase log (write rest ns e d r _ _ _ c) = Says-after r written _ tt
  Course-Says phase log (erase rest ns e r _ _ c) = Says-after_deletion r _
  Course-Says phase log (record_change rest ns e r _ c) = Says-after r recorded _ tt
  Course-Says phase log (record_agreement rest ns e d x r _ _ _ c) = Says-after r unchanged _ tt
  Course-Says phase log (announce rest event r c) = Says-after r announced _ tt
  Course-Says phase log (warn rest event r c) = tt
  Course-Says phase log (announce_absence rest event r _ c) = Says-after r cleaned _ tt
  Course-Says phase log (announce_cleanup rest event r c) = Says-after r cleaned _ tt

  Course-IsGuarded :
      (phase : Phase L W) (log : List (Call L W)) → Course L W policy phase log → IsGuarded log
  Course-IsGuarded phase log start = tt
  Course-IsGuarded phase log (send rest url r _ c) = Course-IsGuarded _ rest c
  Course-IsGuarded phase log (receive rest response _ c) = Course-IsGuarded _ rest c
  Course-IsGuarded phase log (look rest ns r here c) = Course-IsGuarded _ rest c
  Course-IsGuarded phase log (write rest ns e d r here _ _ c) =
      let (unwritten, free) = Course-Says (observed e) rest c in
      ((here, refl), free ns here, unwritten)
  Course-IsGuarded phase log (erase rest ns e r here _ c) =
      let (unwritten, free) = Course-Says (observed (some e)) rest c in
      ((here, refl), free ns here, unwritten)
  Course-IsGuarded phase log (record_change rest ns e r _ c) = Course-IsGuarded _ rest c
  Course-IsGuarded phase log (record_agreement rest ns e d x r _ _ _ c) = Course-IsGuarded _ rest c
  Course-IsGuarded phase log (announce rest event r c) = Course-IsGuarded _ rest c
  Course-IsGuarded phase log (warn rest event r c) = Course-IsGuarded _ rest c
  Course-IsGuarded phase log (announce_absence rest event r _ c) = Course-IsGuarded _ rest c
  Course-IsGuarded phase log (announce_cleanup rest event r c) = Course-IsGuarded _ rest c

  Reaches-IsGuarded :
      {A E : Type 0} (R : A → Phase L W → Type 0) (p : Result A E × (W.State × List (Call L W)))
      → Reaches L W policy R p
      → IsGuarded p.1.1
  unfolding Reaches
  Reaches-IsGuarded R (ok a, (s, log)) (phase, c, h) = Course-IsGuarded phase log c
  Reaches-IsGuarded R (err e, (s, log)) (phase, c) = Course-IsGuarded phase log c

  -- In every run of `reconcile`, whatever the outside answers: what is applied or deleted stands in
  -- the namespace of the CIDRPolicy under its managed name, the call directly before has read that
  -- place and found it empty or holding an object with the policy's marks, and it is the only
  -- write of the run.
  pub reconcile-IsGuarded :
      (s : W.State) → IsGuarded ((reconcile L (logged L W) policy (s, [])).1).1
  reconcile-IsGuarded s = Reaches-IsGuarded (Fits L W) _ (reconcile-Reaches L W policy s)
