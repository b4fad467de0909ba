-- ===== src/Controller/Calls/Requests.antt =====
-- The requests that `prepare` makes over a logged world.
use ipmaze.Base.{
  true, false, ◌≡◌, Option, none, some, List, [], ◌∷◌, Result, ok, err, is_some, arith,
}
use ipmaze.Api.{CidrPolicy}
use ipmaze.Libs.{Libs}
use ipmaze.World.{World}
use ipmaze.Source.{NormalizedRemoteAddress}
use ipmaze.Source.Resolve.{
  fetch_text, fetch_json, parse_json_bytes, resolve_pointer, resolve_final_source,
}
use ipmaze.Controller.{prepare}
use ipmaze.Controller.Calls.{Call, sent, received, Logged, logged}
use ipmaze.Controller.Calls.Protocol.{Phase, requesting, Course, start, send, receive}

module _ (L : Libs) (W : World L) where
  open L use {OwnerReference}
  open W use {namespace}

  -- Only requests to the source have been made, and all were answered.
  abbrev pub AreAnswered : List (Call L W) → Type 0
  AreAnswered [] = Unit
  AreAnswered (sent _ (ok _) ∷ log) = AreAnswered log
  AreAnswered (received _ true ∷ log) = AreAnswered log
  AreAnswered (_ ∷ log) = ⊥

  -- The last one may have failed.
  abbrev pub AreRequests : List (Call L W) → Type 0
  AreRequests [] = Unit
  AreRequests (sent _ _ ∷ log) = AreAnswered log
  AreRequests (received _ _ ∷ log) = AreAnswered log
  AreRequests (_ ∷ log) = ⊥

  abbrev pub HasAsked : {A E : Type 0} → Result A E × Logged L W → Type 0
  HasAsked (ok _, (_, log)) = AreAnswered log
  HasAsked (err _, (_, log)) = AreRequests log

  AreRequests-of_answered : (log : List (Call L W)) → AreAnswered log → AreRequests log
  AreRequests-of_answered [] h = tt
  AreRequests-of_answered (sent _ (ok _) ∷ log) h = h
  AreRequests-of_answered (received _ true ∷ log) h = h
  AreRequests-of_answered (_ ∷ log) h = ground arith

  fetch_text-HasAsked :
      (a : NormalizedRemoteAddress L) (s : Logged L W)
      → AreAnswered s.1
      → HasAsked (fetch_text L (logged L W) a s)
  unfolding fetch_text
  fetch_text-HasAsked a s h = grind (arith, AreRequests-of_answered)

  fetch_json-HasAsked :
      (a : NormalizedRemoteAddress L) (s : Logged L W)
      → AreAnswered s.1
      → HasAsked (fetch_json L (logged L W) a s)
  unfolding fetch_json parse_json_bytes
  fetch_json-HasAsked a s h = grind (arith, AreRequests-of_answered)

  resolve_final_source-HasAsked :
      (a : NormalizedRemoteAddress L) (pointer : Option L.Regex) (s : Logged L W)
      → AreAnswered s.1
      → HasAsked (resolve_final_source L (logged L W) a pointer s)
  unfolding resolve_final_source resolve_pointer
  resolve_final_source-HasAsked a none s h = h
  resolve_final_source-HasAsked a (some regex) s h =
      let fetched : HasAsked (fetch_text L (logged L W) a s) = fetch_text-HasAsked a s h in
      grind (arith, fetched, AreRequests-of_answered)

  pub prepare-HasAsked :
      (policy : CidrPolicy OwnerReference) (s : W.State)
      → HasAsked (prepare L (logged L W) policy (s, []))
  unfolding prepare
  prepare-HasAsked policy s =
      let resolved : (a : NormalizedRemoteAddress L) (pointer : Option L.Regex)
          → HasAsked (resolve_final_source L (logged L W) a pointer (s, [])) =
        λ a pointer. resolve_final_source-HasAsked a pointer (s, []) tt in
      grind (arith, resolved, fetch_json-HasAsked, AreRequests-of_answered)

  pub answered-Course :
      (policy : CidrPolicy OwnerReference) (log : List (Call L W))
      → is_some policy.metadata.deletion_timestamp ≡ false
      → AreAnswered log
      → Course L W policy requesting log
  answered-Course policy [] staying h = start
  answered-Course policy (sent url (ok r) ∷ log) staying h =
      send log url (ok r) staying (answered-Course policy log staying h)
  answered-Course policy (received response true ∷ log) staying h =
      receive log response true (answered-Course policy log staying h)
  answered-Course policy (_ ∷ log) staying h = ground arith

  pub requests-Course :
      (policy : CidrPolicy OwnerReference) (log : List (Call L W))
      → is_some policy.metadata.deletion_timestamp ≡ false
      → AreRequests log
      → (phase : Phase L W) × Course L W policy phase log
  requests-Course policy [] staying h = (requesting, start)
  requests-Course policy (sent url r ∷ log) staying h =
      (_, send log url r staying (answered-Course policy log staying h))
  requests-Course policy (received response whole ∷ log) staying h =
      (_, receive log response whole (answered-Course policy log staying h))
  requests-Course policy (_ ∷ log) staying h = ground arith
