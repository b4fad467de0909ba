-- ===== src/Networking.antt =====
-- The NetworkPolicy objects of Kubernetes, with the fields that netpol.rs fills in, and their `==`.
use ipmaze.Base.{String, Option, List, Eq, string_dec}
use ipmaze.Api.{StringMap, ObjectMeta}

-- `k8s_openapi`'s LabelSelectorRequirement: the operator is a text.
pub record KubeRequirement : Type 0 where
  pub key : String
  pub operator : String
  pub values : Option (List String)

pub record KubeLabelSelector : Type 0 where
  pub match_labels : Option StringMap
  pub match_expressions : Option (List KubeRequirement)

-- `except` and the `ports` of a rule are always `None` in the source.
pub record IpBlock : Type 0 where
  pub cidr : String
  pub except : Option (List String)

pub record NetworkPolicyPeer : Type 0 where
  pub ip_block : Option IpBlock
  pub namespace_selector : Option KubeLabelSelector
  pub pod_selector : Option KubeLabelSelector

pub record NetworkPolicyIngressRule : Type 0 where
  pub from : Option (List NetworkPolicyPeer)
  pub ports : Option (List String)

pub record NetworkPolicyEgressRule : Type 0 where
  pub to : Option (List NetworkPolicyPeer)
  pub ports : Option (List String)

pub record NetworkPolicySpec : Type 0 where
  pub egress : Option (List NetworkPolicyEgressRule)
  pub ingress : Option (List NetworkPolicyIngressRule)
  pub pod_selector : KubeLabelSelector
  pub policy_types : Option (List String)

pub record NetworkPolicy (O : Type 0) : Type 0 where
  pub metadata : ObjectMeta O
  pub spec : Option NetworkPolicySpec

unfoldable pub NetworkPolicySpec-discrete : Discrete NetworkPolicySpec
NetworkPolicySpec-discrete = hlevel string_dec

instance unfoldable pub spec_eq : Eq NetworkPolicySpec
unfolding NetworkPolicySpec-discrete
spec_eq = record { dec = NetworkPolicySpec-discrete }

unfoldable pub StringMap-discrete : Discrete StringMap
StringMap-discrete = hlevel string_dec

instance unfoldable pub map_eq : Eq StringMap
unfolding StringMap-discrete
map_eq = record { dec = StringMap-discrete }
