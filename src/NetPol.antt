-- ===== src/NetPol.antt =====
-- netpol.rs: the managed NetworkPolicy and the test of its ownership.
pub mod Selector
pub mod Rules
pub mod Ownership
use Prim.Native.Nat.{Ordering}
use Prim.Native.String.{compare}
use ipmaze.Base.{
  String, Bool, true, false, ◌&&◌, ◌||◌, Option, none, some, List, [], ◌∷◌, ◌++◌, map, is_empty,
  any, Result, ok, err, ◌>>=◌, ok_or, map_option, is_some, is_some_and, is_none_or, and_then, Eq,
  ◌==◌, string_eq, if◌then◌else◌,
}
use ipmaze.Base.BTree.{set_insert, set_extend, map_insert, map_get}
use ipmaze.Api.{
  Direction, ingress, egress, LabelSelectorOperator, in_values, not_in, exists, does_not_exist,
  LabelSelectorRequirement, LabelSelector, RuleSpec, CidrPolicy, StringMap, ObjectMeta,
  managed_network_policy_name,
}
use ipmaze.Extract.{NormalizedCidr}
use ipmaze.Networking.{
  KubeRequirement, KubeLabelSelector, IpBlock, NetworkPolicyPeer, NetworkPolicyIngressRule,
  NetworkPolicyEgressRule, NetworkPolicySpec, NetworkPolicy,
}
use ipmaze.Libs.{Libs}
use ipmaze.World.{World}
use Selector.{RenderError, missing_namespace, render_subject_selector}
use Rules.{build_ingress_rules, build_egress_rules, build_policy_types}

abbrev pub managed_by_label : String
managed_by_label = "app.kubernetes.io/managed-by"

abbrev pub managed_by_value : String
managed_by_value = "ipmaze-controller"

abbrev pub source_policy_annotation : String
source_policy_annotation = "ipmaze.k8s.justin.directory/source-policy"

abbrev pub field_manager : String
field_manager = "ipmaze-controller"

module _ (L : Libs) (W : World L) where
  open L use {OwnerReference}
  open W use {name_any, namespace, controller_owner_ref}

  unfoldable pub managed_metadata : CidrPolicy OwnerReference → String → ObjectMeta OwnerReference
  managed_metadata policy ns = record {
    name = some (managed_network_policy_name policy);
    namespace = some ns;
    uid = none;
    deletion_timestamp = none;
    labels = some (map_insert compare managed_by_label managed_by_value []);
    annotations = some (map_insert compare source_policy_annotation (name_any policy) []);
    owner_references = map_option (λ owner. owner ∷ []) (controller_owner_ref policy);
  }

  unfoldable pub build_managed_network_policy :
      CidrPolicy OwnerReference
      → List NormalizedCidr
      → Result (NetworkPolicy OwnerReference) RenderError
  build_managed_network_policy policy cidrs = do
    ns ← ok_or (namespace policy) missing_namespace
    subject ← render_subject_selector policy.spec.target.pod_selector
    ingress_rules ← build_ingress_rules policy.spec.rules cidrs
    egress_rules ← build_egress_rules policy.spec.rules cidrs
    ok (record {
      metadata = managed_metadata policy ns;
      spec = some (record {
        egress = some egress_rules;
        ingress = some ingress_rules;
        pod_selector = subject;
        policy_types = some (build_policy_types policy.spec.rules);
      });
    })

  unfoldable pub is_managed_network_policy_for :
      CidrPolicy OwnerReference → NetworkPolicy OwnerReference → Bool
  is_managed_network_policy_for policy network_policy =
      labels_match && (annotation_matches && owner_matches)
    where
      labels_match : Bool
      labels_match =
          is_some_and (and_then network_policy.metadata.labels (map_get compare managed_by_label))
            (λ value. value == managed_by_value)

      annotation_matches : Bool
      annotation_matches =
          is_some_and
            (and_then network_policy.metadata.annotations
              (map_get compare source_policy_annotation))
            (λ value. value == name_any policy)

      owner_matches : Bool
      owner_matches = is_some_and (controller_owner_ref policy) (λ owner.
          is_some_and network_policy.metadata.owner_references
            (λ owners. any (λ candidate. ◌==◌ ⦃e = L.owner_eq⦄ candidate owner) owners))
