-- ===== src/Api.antt =====
-- api.rs, with the parts of Kubernetes' ObjectMeta that the controller reads or writes.
-- A BTreeMap is the list of its entries in the order of their keys.
use ipmaze.Base.{String, Option, List, unwrap_or, ◌<>◌}

abbrev pub StringMap : Type 0
StringMap = List (String × String)

-- `O` is the type of owner references.
pub record ObjectMeta (O : Type 0) : Type 0 where
  pub name : Option String
  pub namespace : Option String
  pub uid : Option String
  pub deletion_timestamp : Option String
  pub labels : Option StringMap
  pub annotations : Option StringMap
  pub owner_references : Option (List O)

pub data Direction : Type 0 where
  ingress egress : Direction

pub data LabelSelectorOperator : Type 0 where
  in_values not_in exists does_not_exist : LabelSelectorOperator

pub record LabelSelectorRequirement : Type 0 where
  pub key : String
  pub operator : LabelSelectorOperator
  pub values : Option (List String)

pub record LabelSelector : Type 0 where
  pub match_labels : Option StringMap
  pub match_expressions : Option (List LabelSelectorRequirement)

pub record RuleSpec : Type 0 where
  pub directions : Option (List Direction)
  pub pod_selector : Option LabelSelector
  pub namespace_selector : Option LabelSelector

pub record TargetSpec : Type 0 where
  pub pod_selector : LabelSelector

pub record PointerSpec : Type 0 where
  pub regex : String

pub record SourceSpec : Type 0 where
  pub address : String
  pub pointer : Option PointerSpec
  pub jmes_path : String

pub record CidrPolicySpec : Type 0 where
  pub source : SourceSpec
  pub resync_schedule : Option String
  pub target : TargetSpec
  pub rules : List RuleSpec

pub record CidrPolicyStatus : Type 0 where
  pub last_successful_resolution_time : Option String
  pub last_observed_cidrs : List String
  pub last_reconciliation_error : Option String

pub record CidrPolicy (O : Type 0) : Type 0 where
  pub metadata : ObjectMeta O
  pub spec : CidrPolicySpec
  pub status : Option CidrPolicyStatus

unfoldable pub managed_network_policy_name : {O : Type 0} → CidrPolicy O → String
managed_network_policy_name policy = unwrap_or policy.metadata.name "cidrpolicy" <> "-managed"
