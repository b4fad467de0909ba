-- ===== src/Controller/Calls/Copies.antt =====
-- Parts of a reconciliation over a logged world, beside the same ones without the log.
use ipmaze.Base.{String, Bool, true, false, ◌≡◌, refl, Option, none, some, List, Result, arith}
use ipmaze.Api.{CidrPolicy}
use ipmaze.Networking.{NetworkPolicy}
use ipmaze.Libs.{Libs}
use ipmaze.World.{World, EventType}
use ipmaze.Source.{NormalizedRemoteAddress}
use ipmaze.Source.Resolve.{
  fetch_text, fetch_json, parse_json_bytes, resolve_pointer, resolve_final_source,
}
use ipmaze.Extract.{NormalizedCidr}
use ipmaze.NetPol.{build_managed_network_policy, managed_metadata}
use ipmaze.Status.{
  ReconcileOutcome, patch_status_for_outcome, status_source, status_for_outcome, succeeded,
}
use ipmaze.Controller.{
  classify_outcome, managed_policy_matches, apply_outcome, publish_outcome_event, cleanup_note,
}
use ipmaze.Controller.Managed.{apply_managed_network_policy, publish_policy_event}
use ipmaze.Controller.Calls.{Logged, logged}

module _ (L : Libs) (W : World L) where
  open L use {OwnerReference, Value}

  -- The same result and the same state but for the log.
  abbrev IsCopy : {A E : Type 0} → Result A E × Logged L W → Result A E × W.State → Type 0
  IsCopy p q = (p.0 ≡ q.0) × (p.1.0 ≡ q.1)

  pub fetch_json-IsCopy :
      (a : NormalizedRemoteAddress L) (s : Logged L W)
      → IsCopy (fetch_json L (logged L W) a s) (fetch_json L W a s.0)
  unfolding fetch_json parse_json_bytes
  fetch_json-IsCopy a s = (ground arith, ground arith)

  pub resolve_final_source-IsCopy :
      (a : NormalizedRemoteAddress L) (pointer : Option L.Regex) (s : Logged L W)
      → IsCopy
          (resolve_final_source L (logged L W) a pointer s)
          (resolve_final_source L W a pointer s.0)
  unfolding resolve_final_source resolve_pointer fetch_text
  resolve_final_source-IsCopy a none s = (refl, refl)
  resolve_final_source-IsCopy a (some regex) s = (ground arith, ground arith)

  pub same_build :
      (policy : CidrPolicy OwnerReference) (cidrs : List NormalizedCidr)
      → build_managed_network_policy L (logged L W) policy cidrs
        ≡ build_managed_network_policy L W policy cidrs
  unfolding build_managed_network_policy managed_metadata
  same_build policy cidrs = refl

  pub same_outcome :
      (existing : Option (NetworkPolicy OwnerReference)) (np : NetworkPolicy OwnerReference)
      (observed : List String)
      → classify_outcome L (logged L W) existing np observed
        ≡ classify_outcome L W existing np observed
  unfolding classify_outcome managed_policy_matches
  same_outcome none np observed = refl
  same_outcome (some current) np observed = refl

  pub apply_outcome-IsCopy :
      (n : String) (np : NetworkPolicy OwnerReference) (outcome : ReconcileOutcome) (s : Logged L W)
      → IsCopy (apply_outcome L (logged L W) n np outcome s) (apply_outcome L W n np outcome s.0)
  unfolding apply_outcome apply_managed_network_policy
  apply_outcome-IsCopy n np outcome s = (ground arith, ground arith)

  pub patch_status_for_outcome-IsCopy :
      (n : String) (policy : CidrPolicy OwnerReference) (outcome : ReconcileOutcome)
      (s : Logged L W)
      → IsCopy
          (patch_status_for_outcome L (logged L W) n policy outcome s)
          (patch_status_for_outcome L W n policy outcome s.0)
  unfolding patch_status_for_outcome status_source status_for_outcome succeeded
  patch_status_for_outcome-IsCopy n policy outcome s = (ground arith, ground arith)

  pub publish_outcome_event-IsCopy :
      (policy : CidrPolicy OwnerReference) (np : Option (NetworkPolicy OwnerReference))
      (outcome : ReconcileOutcome) (s : Logged L W)
      → IsCopy
          (publish_outcome_event L (logged L W) policy np outcome s)
          (publish_outcome_event L W policy np outcome s.0)
  unfolding publish_outcome_event publish_policy_event
  publish_outcome_event-IsCopy policy np outcome s = (ground arith, ground arith)

  pub publish_policy_event-IsCopy :
      (policy : CidrPolicy OwnerReference) (text : String) (s : Logged L W)
      → IsCopy
          (publish_policy_event L
            (logged L W)
            policy
            EventType.normal
            "CleanupManagedPolicy"
            "Cleanup"
            (some text)
            none
            s)
          (publish_policy_event L W policy EventType.normal "CleanupManagedPolicy" "Cleanup"
            (some text)
            none
            s.0)
  unfolding publish_policy_event
  publish_policy_event-IsCopy policy text s = (refl, refl)

  pub same_note :
      (policy : CidrPolicy OwnerReference) (gone : Bool)
      → cleanup_note L (logged L W) policy gone ≡ cleanup_note L W policy gone
  unfolding cleanup_note
  same_note policy true = refl
  same_note policy false = refl
