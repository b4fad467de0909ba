-- ===== src/Controller.antt =====
-- controller.rs: the reconciler, the cleanup, and what follows a failure.
pub mod Calls
pub mod Cleanup
pub mod Cluster
pub mod Collision
pub mod Enforcement
pub mod Errors
pub mod Failsafe
pub mod Interleaved
pub mod Isolation
pub mod Overtaken
pub mod Raced
pub mod Removes
pub mod Resync
pub mod Runs
pub mod Safety
pub mod Settled
pub mod Statuses
pub mod Succeeds
pub mod Steady
pub mod Managed
pub mod Recorded
pub mod Rendering
pub mod Rewrites
pub mod Requeue
use ipmaze.Base.{
  ℕ, String, Bool, true, false, ◌&&◌, Option, none, some, List, [], ◌∷◌, length, map, map_err,
  map_option, Result, ok, err, ok_or, is_some, Eq, ◌==◌, string_eq, option_eq, list_eq,
  if◌then◌else◌, ◌<>◌, ◌=ℕ◌, is_some_and,
}
use ipmaze.Base.Action.{Action, ◌>>=◌, ◌>>◌, pure, throw, lift, convert, asks}
use ipmaze.Api.{CidrPolicy, managed_network_policy_name}
use ipmaze.Libs.{Libs}
use ipmaze.World.{World, EventType, normal, warning, Event}
use ipmaze.Networking.{NetworkPolicy, spec_eq, map_eq}
use ipmaze.Text.{to_lowercase, decimal}
use ipmaze.Source.{ResolvedSource}
use ipmaze.Source.Resolve.{resolve_final_source, fetch_json}
use ipmaze.Extract.{NormalizedCidr, compile_query, extract_cidrs}
use ipmaze.Validation.{ValidatedPolicy, validate_policy, invalid_jmes_path}
use ipmaze.NetPol.{field_manager, build_managed_network_policy, is_managed_network_policy_for}
use ipmaze.NetPol.Selector.{
  RenderError, missing_namespace, missing_selector_values, unexpected_selector_values,
}
use ipmaze.Status.{
  ReconcileStage, ReconcileOutcome, reconciled, no_change, failed, stage_message,
  patch_status_for_outcome,
}
use Errors.{
  ReconcileError, validation_error, managed_policy_collision_error, fetch_error, extract_error,
  render_error, kubernetes_api_error, stage, error_text,
}
use Managed.{
  apply_managed_network_policy, publish_policy_event, get_managed_network_policy,
  delete_managed_network_policy,
}
use Requeue.{schedule_requeue_after}

-- `kube::runtime::controller::Action`; a delay is in nanoseconds.
pub data Next : Type 0 where
  await_change : Next
  requeue : ℕ → Next

module _ (L : Libs) (W : World L) where
  open L use {OwnerReference, Value}
  open W use {
    State, KubeError, ObjectReference, name_any, namespace, object_ref, network_policy_ref,
    api_code, get_opt_network_policy, apply_network_policy, delete_network_policy, publish,
  }

  unfoldable pub managed_policy_matches :
      NetworkPolicy OwnerReference → NetworkPolicy OwnerReference → Bool
  managed_policy_matches current desired =
      current.spec == desired.spec
      && (current.metadata.labels == desired.metadata.labels
          && (current.metadata.annotations == desired.metadata.annotations && owners_match))
    where
      instance owner_eq : Eq OwnerReference
      owner_eq = L.owner_eq

      owners_match : Bool
      owners_match = current.metadata.owner_references == desired.metadata.owner_references

  unfoldable pub classify_outcome :
      Option (NetworkPolicy OwnerReference)
      → NetworkPolicy OwnerReference
      → List String
      → ReconcileOutcome
  classify_outcome none desired observed = reconciled observed
  classify_outcome (some current) desired observed =
      if managed_policy_matches current desired then no_change observed else reconciled observed

  unfoldable pub publish_outcome_event :
      CidrPolicy OwnerReference
      → Option (NetworkPolicy OwnerReference)
      → ReconcileOutcome
      → Action State (Unit {0}) KubeError
  publish_outcome_event policy managed (reconciled observed) =
      publish_policy_event L W policy normal "Reconciled" "Reconcile"
        (some (
          "Reconciled managed NetworkPolicy with "
          <> (decimal (length observed) <> " CIDR entries")))
        managed
  publish_outcome_event policy managed (no_change observed) = pure tt
  publish_outcome_event policy managed (failed s message) = pure tt

  unfoldable pub cleanup_note : CidrPolicy OwnerReference → Bool → String
  cleanup_note policy true =
      "Deleted managed NetworkPolicy "
      <> (managed_network_policy_name policy <> " during CIDRPolicy cleanup")
  cleanup_note policy false =
      "Managed NetworkPolicy "
      <> (managed_network_policy_name policy <> " was already absent during CIDRPolicy cleanup")

  unfoldable pub cleanup : CidrPolicy OwnerReference → Action State (Unit {0}) (ReconcileError L W)
  cleanup policy = do
    ns ← lift (ok_or (namespace policy) (render_error missing_namespace))
    existing ← get_managed_network_policy L W ns policy "Cleanup"
    deleted ← delete_managed_network_policy L W ns policy (is_some existing)
    convert kubernetes_api_error (
        publish_policy_event L W policy normal "CleanupManagedPolicy" "Cleanup"
          (some (cleanup_note policy deleted)) none)

  -- What `reconcile` computes from the payload: the rendered policy and the observed CIDRs.
  unfoldable pub render_payload :
      CidrPolicy OwnerReference
      → Value
      → Result (NetworkPolicy OwnerReference × List String) (ReconcileError L W)
  render_payload policy payload = elim (compile_query L policy.spec.source.jmes_path) [
    | err e ↦ err (validation_error (invalid_jmes_path e))
    | ok query ↦ elim (extract_cidrs L query payload) [
      | err e ↦ err (extract_error e)
      | ok cidrs ↦ elim (build_managed_network_policy L W policy cidrs) [
        | err e ↦ err (render_error e)
        | ok rendered ↦ ok (rendered, map (λ c. c.rendered) cidrs)
      ]
    ]
  ]

  -- `if matches!(outcome, Reconciled { .. })`
  unfoldable pub apply_outcome :
      String → NetworkPolicy OwnerReference → ReconcileOutcome → Action State (Unit {0}) KubeError
  apply_outcome ns rendered (reconciled observed) = apply_managed_network_policy L W ns rendered
  apply_outcome ns rendered (no_change observed) = pure tt
  apply_outcome ns rendered (failed s message) = pure tt

  -- `reconcile` up to the rendered policy: nothing is written yet.
  unfoldable pub prepare :
      CidrPolicy OwnerReference
      → Action State
          (ValidatedPolicy L × NetworkPolicy OwnerReference × List String × String)
          (ReconcileError L W)
  prepare policy = do
    validated ← lift (map_err validation_error (validate_policy L policy))
    source ←
        convert fetch_error
          (resolve_final_source L W validated.source_address validated.pointer_regex)
    payload ← convert fetch_error (fetch_json L W source.final_address)
    made ← lift (render_payload policy payload)
    ns ← lift (ok_or (namespace policy) (render_error missing_namespace))
    pure (validated, made.0, made.1, ns)

  -- The rest of `reconcile`.
  unfoldable pub settle :
      CidrPolicy OwnerReference
      → ValidatedPolicy L × NetworkPolicy OwnerReference × List String × String
      → Action State Next (ReconcileError L W)
  settle policy (validated, rendered, observed, ns) = do
    existing ← get_managed_network_policy L W ns policy "Reconcile"
    let outcome = classify_outcome existing rendered observed
    convert kubernetes_api_error (apply_outcome ns rendered outcome)
    convert kubernetes_api_error (patch_status_for_outcome L W ns policy outcome)
    convert kubernetes_api_error (publish_outcome_event policy (some rendered) outcome)
    delay ← schedule_requeue_after L W validated.resync_schedule
    pure (requeue delay)

  unfoldable pub reconcile : CidrPolicy OwnerReference → Action State Next (ReconcileError L W)
  reconcile policy =
      if is_some policy.metadata.deletion_timestamp
      then cleanup policy >> pure await_change
      else prepare policy >>= settle policy

  unfoldable pub handle_reconcile_failure :
      CidrPolicy OwnerReference → ReconcileStage → String → Action State (Unit {0}) KubeError
  handle_reconcile_failure policy s message = elim (namespace policy) [
    | none ↦ pure tt
    | some ns ↦ do
      patch_status_for_outcome L W ns policy (failed s message)
      publish_policy_event L W policy warning "ReconcileFailed" "Reconcile"
          (some (stage_message s message)) none
  ]

  -- The delay of `ctx.requeue_after`, and the task that is spawned.
  unfoldable pub error_policy :
      ℕ → CidrPolicy OwnerReference → ReconcileError L W → Next × Action State (Unit {0}) KubeError
  error_policy requeue_after policy error =
      (requeue requeue_after, handle_reconcile_failure policy (stage error) (error_text error))
