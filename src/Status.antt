-- ===== src/Status.antt =====
-- status.rs
pub mod Stages
pub mod Outcome
use ipmaze.Base.{String, Option, none, some, List, [], Result, unwrap_or, ◌<>◌}
use ipmaze.Base.Action.{Action, ◌>>=◌, ◌>>◌, pure, asks}
use ipmaze.Api.{CidrPolicy, CidrPolicyStatus}
use ipmaze.Libs.{Libs}
use ipmaze.World.{World}

abbrev pub status_field_manager : String
status_field_manager = "ipmaze-controller-status"

pub data ReconcileStage : Type 0 where
  validation managed_policy_collision pointer_retrieval pointer_extraction : ReconcileStage
  transport json_decode jmes_path_compile jmes_path_evaluate result_shape : ReconcileStage
  cidr_validation selector_translation scheduling kubernetes_api : ReconcileStage

pub data ReconcileOutcome : Type 0 where
  reconciled : List String → ReconcileOutcome
  no_change : List String → ReconcileOutcome
  failed : ReconcileStage → String → ReconcileOutcome

unfoldable pub stage_as_str : ReconcileStage → String
stage_as_str validation = "validation"
stage_as_str managed_policy_collision = "managed-policy-collision"
stage_as_str pointer_retrieval = "pointer-retrieval"
stage_as_str pointer_extraction = "pointer-extraction"
stage_as_str transport = "transport"
stage_as_str json_decode = "json-decode"
stage_as_str jmes_path_compile = "jmespath-compile"
stage_as_str jmes_path_evaluate = "jmespath-evaluate"
stage_as_str result_shape = "result-shape"
stage_as_str cidr_validation = "cidr-validation"
stage_as_str selector_translation = "selector-translation"
stage_as_str scheduling = "scheduling"
stage_as_str kubernetes_api = "kubernetes-api"

-- `CIDRPolicyStatus::default()`
abbrev pub default_status : CidrPolicyStatus
default_status = record {
  last_successful_resolution_time = none;
  last_observed_cidrs = [];
  last_reconciliation_error = none;
}

-- `format!("{}: {}", stage.as_str(), message)`
unfoldable pub stage_message : ReconcileStage → String → String
stage_message stage message = stage_as_str stage <> (": " <> message)

module _ (L : Libs) (W : World L) where
  open L use {OwnerReference, DateTime, to_rfc3339}
  open W use {State, KubeError, now, name_any, get_cidr_policy, patch_cidr_policy_status}

  unfoldable pub succeeded : DateTime → List String → CidrPolicyStatus
  succeeded time observed = record {
    last_successful_resolution_time = some (to_rfc3339 time);
    last_observed_cidrs = observed;
    last_reconciliation_error = none;
  }

  -- The clock's reading, `Utc::now()`, is the first argument.
  unfoldable pub status_for_outcome :
      DateTime → CidrPolicy OwnerReference → ReconcileOutcome → CidrPolicyStatus
  status_for_outcome time policy (reconciled observed) = succeeded time observed
  status_for_outcome time policy (no_change observed) = succeeded time observed
  status_for_outcome time policy (failed stage message) =
      let current = unwrap_or policy.status default_status in
      record current { last_reconciliation_error = some (stage_message stage message) }

  -- The policy whose status is carried on: a failure reads it anew from the API server.
  unfoldable pub status_source :
      String
      → CidrPolicy OwnerReference
      → ReconcileOutcome
      → Action State (CidrPolicy OwnerReference) KubeError
  status_source ns policy (failed stage message) = get_cidr_policy ns (name_any policy)
  status_source ns policy (reconciled observed) = pure policy
  status_source ns policy (no_change observed) = pure policy

  -- The first argument is the namespace of `api`.
  unfoldable pub patch_status_for_outcome :
      String → CidrPolicy OwnerReference → ReconcileOutcome → Action State (Unit {0}) KubeError
  patch_status_for_outcome ns policy outcome = do
    source ← status_source ns policy outcome
    time ← asks now
    patch_cidr_policy_status ns (name_any policy) status_field_manager
        (status_for_outcome time source outcome)
