-- ===== src/Controller/Calls/Count.antt =====
-- How many calls a reconciliation and a failure report make.
use ipmaze.Base.{
  if◌then◌else◌, ℕ, String, Option, none, some, List, length, ◌≤◌, ◌+◌, ◌≡◌, arith, Result, ok,
  Bool-cases, inl, inr, is_some,
}
use ipmaze.Api.{CidrPolicy}
use ipmaze.Networking.{NetworkPolicy}
use ipmaze.Libs.{Libs}
use ipmaze.World.{World}
use ipmaze.Source.{NormalizedRemoteAddress}
use ipmaze.Source.Resolve.{
  fetch_text, fetch_json, parse_json_bytes, resolve_pointer, resolve_final_source,
}
use ipmaze.Validation.{ValidatedPolicy}
use ipmaze.Status.{ReconcileStage, patch_status_for_outcome, status_source}
use ipmaze.Controller.{
  error_policy, prepare, settle, cleanup, reconcile, classify_outcome, apply_outcome,
  publish_outcome_event, handle_reconcile_failure,
}
use ipmaze.Controller.Errors.{ReconcileError}
use ipmaze.Controller.Managed.{
  get_managed_network_policy, check_owned, apply_managed_network_policy, publish_policy_event,
  report_managed_policy_collision, delete_managed_network_policy,
}
use ipmaze.Controller.Requeue.{schedule_requeue_after}
use ipmaze.Controller.Calls.{Logged, logged}

module _ (L : Libs) (W : World L) where
  open L use {OwnerReference}

  -- The calls that have been made.
  abbrev made : {A E : Type 0} → Result A E × Logged L W → ℕ
  made p = length p.1.1

  fetch_json-length :
      (a : NormalizedRemoteAddress L) (s : Logged L W)
      → made (fetch_json L (logged L W) a s) ≤ length s.1 + 2
  unfolding fetch_json parse_json_bytes
  fetch_json-length a s = ground arith

  resolve_final_source-length :
      (a : NormalizedRemoteAddress L) (pointer : Option L.Regex) (s : Logged L W)
      → made (resolve_final_source L (logged L W) a pointer s) ≤ length s.1 + 2
  unfolding resolve_final_source resolve_pointer fetch_text
  resolve_final_source-length a none s = ground arith
  resolve_final_source-length a (some regex) s = ground arith

  prepare-length :
      (policy : CidrPolicy OwnerReference) (s : Logged L W)
      → made (prepare L (logged L W) policy s) ≤ length s.1 + 4
  unfolding prepare
  prepare-length policy s = grind (arith, fetch_json-length, resolve_final_source-length)

  get_managed_network_policy-length :
      (n : String) (policy : CidrPolicy OwnerReference) (action : String) (s : Logged L W)
      → made (get_managed_network_policy L (logged L W) n policy action s) ≤ length s.1 + 2
  unfolding get_managed_network_policy check_owned report_managed_policy_collision
      publish_policy_event
  get_managed_network_policy-length n policy action s = ground arith

  get_managed_network_policy-length-ok :
      (n : String) (policy : CidrPolicy OwnerReference) (action : String) (s : Logged L W)
      (found : Option (NetworkPolicy OwnerReference))
      → (get_managed_network_policy L (logged L W) n policy action s).0 ≡ ok found
      → made (get_managed_network_policy L (logged L W) n policy action s) ≤ length s.1 + 1
  unfolding get_managed_network_policy check_owned report_managed_policy_collision
      publish_policy_event
  get_managed_network_policy-length-ok n policy action s found h = ground arith

  settle-length :
      (policy : CidrPolicy OwnerReference) (v : ValidatedPolicy L)
      (np : NetworkPolicy OwnerReference) (cidrs : List String) (n : String) (s : Logged L W)
      → made (settle L (logged L W) policy (v, np, cidrs, n) s) ≤ length s.1 + 4
  unfolding settle classify_outcome apply_outcome apply_managed_network_policy
      patch_status_for_outcome status_source publish_outcome_event publish_policy_event
      schedule_requeue_after
  settle-length policy v np cidrs n s = grind (
    arith,
    get_managed_network_policy-length n policy "Reconcile" s,
    get_managed_network_policy-length-ok n policy "Reconcile" s,
  )

  cleanup-length :
      (policy : CidrPolicy OwnerReference) (s : Logged L W)
      → made (cleanup L (logged L W) policy s) ≤ length s.1 + 3
  unfolding cleanup delete_managed_network_policy publish_policy_event
  cleanup-length policy s =
      grind (arith, get_managed_network_policy-length, get_managed_network_policy-length-ok)

  handle_reconcile_failure-length :
      (policy : CidrPolicy OwnerReference) (stage : ReconcileStage) (message : String)
      (s : Logged L W)
      → made (handle_reconcile_failure L (logged L W) policy stage message s) ≤ length s.1 + 3
  unfolding handle_reconcile_failure patch_status_for_outcome status_source publish_policy_event
  handle_reconcile_failure-length policy stage message s = ground arith

  abbrev most_calls : CidrPolicy OwnerReference → ℕ
  most_calls policy = if is_some policy.metadata.deletion_timestamp then 3 else 8

  -- Whatever the outside answers, a reconciliation makes at most eight calls, at most three when the
  -- CIDRPolicy is being deleted, and the task that `error_policy` spawns for whatever error makes
  -- at most three.
  pub reconcile-length :
      (policy : CidrPolicy OwnerReference) (delay : ℕ) (error : ReconcileError L (logged L W))
      (s : Logged L W)
      → (made (reconcile L (logged L W) policy s) ≤ length s.1 + most_calls policy)
        × (made ((error_policy L (logged L W) delay policy error).1 s) ≤ length s.1 + 3)
  unfolding reconcile error_policy
  reconcile-length policy delay error s = (
    elim (Bool-cases (is_some policy.metadata.deletion_timestamp)) [
      | inl going ↦
          let cleaned : made (cleanup L (logged L W) policy s) ≤ length s.1 + 3 =
            cleanup-length policy s in
          rw going (grind (arith, cleaned))
      | inr staying ↦
          let prepared : made (prepare L (logged L W) policy s) ≤ length s.1 + 4 =
            prepare-length policy s in
          let settled : (x : ValidatedPolicy L
                  × NetworkPolicy OwnerReference
                  × List String
                  × String)
                (s₁ : Logged L W)
              → made (settle L (logged L W) policy x s₁) ≤ length s₁.1 + 4 =
            λ (v, np, cidrs, n) s₁. settle-length policy v np cidrs n s₁ in
          rw staying (grind (arith, prepared, settled))
    ],
    handle_reconcile_failure-length policy _ _ s,
  )
