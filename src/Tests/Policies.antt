-- ===== src/Tests/Policies.antt =====
-- validation.rs and netpol.rs on one small policy.
use ipmaze.Base.{
  String, string_eq, string_dec, true, ◌≡◌, refl, Option, none, some, List, [], ◌∷◌, ok,
}
use ipmaze.Text.{trim, trim_start, trim_end, is_whitespace, split, last_char, split_whitespace}
use ipmaze.Api.{
  ingress, egress, in_values, LabelSelector, RuleSpec, CidrPolicySpec, CidrPolicy,
  managed_network_policy_name,
}
use ipmaze.Networking.{NetworkPolicy, NetworkPolicySpec, NetworkPolicyPeer, KubeLabelSelector}
use ipmaze.Source.{normalize_source_address, of_trimmed, of_bare, with_url}
use ipmaze.Source.Hostname.{is_valid_hostname, is_valid_hostname_label, is_ascii_alphanumeric}
use ipmaze.Extract.{compile_query}
use ipmaze.Extract.Order.{renderings}
use ipmaze.Validation.{
  ValidatedPolicy, require_values, check_operator, validate_selector_requirement,
  validate_requirements, validate_selector, validate_optional, validate_directions, validate_rule,
  validate_rules, validate_pointer_regex, validate_resync_schedule, validate_spec, validate_policy,
}
use ipmaze.Validation.Sound.{IsValidSpec, validate_spec_iff}
use ipmaze.NetPol.{
  managed_by_label, managed_by_value, source_policy_annotation, managed_metadata,
  build_managed_network_policy, is_managed_network_policy_for,
}
use ipmaze.NetPol.Selector.{
  with_values, render_operator, render_requirement, render_requirements, render_selector,
  render_subject_selector,
}
use ipmaze.NetPol.Selector.RoundTrip.{read_selector, read_selector-render_selector}
use ipmaze.NetPol.Rules.{
  effective_directions, render_peer_selector, cidr_peer, selector_peers, build_peers,
  build_ingress_rules, build_egress_rules, collect_policy_types, build_policy_types,
}
use ipmaze.NetPol.Rules.Directions.{types_of, build_policy_types-types_of}
use ipmaze.NetPol.Rules.Blocks.{per_rule}
use ipmaze.NetPol.Ownership.{
  ingress_blocks, egress_blocks, is_managed-build_managed_network_policy,
  build_managed_network_policy-blocks, build_managed_network_policy_total,
}
use ipmaze.Tests.Crates.{test_libs}
use ipmaze.Tests.Outside.{test_world}
use ipmaze.Tests.Addresses.{web_host}
use ipmaze.Tests.Extraction.{ten, net}

abbrev selector : LabelSelector
selector = record {
  match_labels = some (("app", "web") ∷ []);
  match_expressions =
      some (record { key = "tier"; operator = in_values; values = some ("front" ∷ []) } ∷ []);
}

abbrev both_ways : RuleSpec
both_ways = record { directions = none; pod_selector = some selector; namespace_selector = none }

abbrev pub outward : RuleSpec
outward = record {
  directions = some (egress ∷ egress ∷ []);
  pod_selector = none;
  namespace_selector = some selector;
}

abbrev pub spec : CidrPolicySpec
spec = record {
  source = record {
    address = "example.com";
    pointer = some (record { regex = "whole" });
    jmes_path = "@";
  };
  resync_schedule = none;
  target = record { pod_selector = selector };
  rules = both_ways ∷ outward ∷ [];
}

abbrev pub policy : CidrPolicy String
policy = record {
  metadata = record {
    name = some "partners";
    namespace = some "default";
    uid = some "uid-1";
    deletion_timestamp = none;
    labels = none;
    annotations = none;
    owner_references = none;
  };
  spec = spec;
  status = none;
}

abbrev pub validated : ValidatedPolicy test_libs
validated = record {
  source_address = web_host;
  pointer_regex = some "whole";
  resync_schedule = "0 0 0 * * *";
}

pub validates : validate_policy test_libs policy ≡ ok validated
unfolding validate_policy validate_spec validate_rules validate_rule validate_optional
    validate_directions validate_selector validate_requirements validate_selector_requirement
    check_operator require_values validate_pointer_regex validate_resync_schedule compile_query
    normalize_source_address of_trimmed of_bare with_url string_eq string_dec trim trim_start
    trim_end is_whitespace split split_whitespace last_char is_valid_hostname
    is_valid_hostname_label is_ascii_alphanumeric
validates = refl

validate_spec_iff_example : IsValidSpec test_libs spec validated
unfolding validate_policy
validate_spec_iff_example = (validate_spec_iff test_libs spec validated).0 validates

abbrev rendered_selector : KubeLabelSelector
rendered_selector = record {
  match_labels = some (("app", "web") ∷ []);
  match_expressions =
      some (record { key = "tier"; operator = "In"; values = some ("front" ∷ []) } ∷ []);
}

renders : render_selector selector ≡ ok rendered_selector
unfolding render_selector render_requirements render_requirement render_operator with_values
renders = refl

read_selector-render_selector_example : read_selector rendered_selector ≡ some selector
read_selector-render_selector_example =
    read_selector-render_selector selector rendered_selector renders

build_policy_types-types_of_example :
    build_policy_types (both_ways ∷ outward ∷ []) ≡ types_of true true
build_policy_types-types_of_example = build_policy_types-types_of (both_ways ∷ outward ∷ [])

abbrev selector_peer : NetworkPolicyPeer
selector_peer = record {
  ip_block = none;
  namespace_selector = none;
  pod_selector = some rendered_selector;
}

abbrev namespace_peer : NetworkPolicyPeer
namespace_peer = record {
  ip_block = none;
  namespace_selector = some rendered_selector;
  pod_selector = none;
}

abbrev block : String → NetworkPolicyPeer
block cidr = record {
  ip_block = some (record { cidr = cidr; except = none });
  namespace_selector = none;
  pod_selector = none;
}

abbrev blocks : List NetworkPolicyPeer
blocks = block "10.0.0.0/8" ∷ block "192.0.2.0/24" ∷ []

abbrev pub built_spec : NetworkPolicySpec
built_spec = record {
  egress = some (
      record { to = some (selector_peer ∷ blocks); ports = none }
      ∷ record { to = some (namespace_peer ∷ blocks); ports = none }
      ∷ []);
  ingress = some (record { from = some (selector_peer ∷ blocks); ports = none } ∷ []);
  pod_selector = rendered_selector;
  policy_types = some ("Egress" ∷ "Ingress" ∷ []);
}

abbrev pub built : NetworkPolicy String
built = record {
  metadata = record {
    name = some "partners-managed";
    namespace = some "default";
    uid = none;
    deletion_timestamp = none;
    labels = some ((managed_by_label, managed_by_value) ∷ []);
    annotations = some ((source_policy_annotation, "partners") ∷ []);
    owner_references = some ("uid-1" ∷ []);
  };
  spec = some built_spec;
}

pub builds : build_managed_network_policy test_libs test_world policy (ten ∷ net ∷ []) ≡ ok built
unfolding build_managed_network_policy managed_metadata managed_network_policy_name
    render_subject_selector render_selector render_requirements render_requirement render_operator
    with_values build_ingress_rules build_egress_rules build_peers selector_peers
    render_peer_selector cidr_peer effective_directions build_policy_types collect_policy_types
builds = refl

is_managed-build_managed_network_policy_example :
    (is_managed_network_policy_for test_libs test_world policy built ≡ true)
    × (is_managed_network_policy_for test_libs test_world policy built ≡ true
        → (◌≡◌ {A = String} "partners" "partners")
          × (◌≡◌ {A = Option String} (some "uid-1") (some "uid-1")))
is_managed-build_managed_network_policy_example =
    is_managed-build_managed_network_policy test_libs test_world policy policy (ten ∷ net ∷ [])
      built builds

build_managed_network_policy_total_example :
    (np : NetworkPolicy String) × (build_managed_network_policy test_libs test_world policy
        (ten ∷ net ∷ [])
      ≡ ok np)
build_managed_network_policy_total_example =
    build_managed_network_policy_total test_libs test_world policy validated "default"
      (ten ∷ net ∷ []) validates refl

build_managed_network_policy-blocks_example :
    (s : NetworkPolicySpec) × (◌≡◌ {A = Option NetworkPolicySpec} (some built_spec) (some s))
    × (ingress_blocks s ≡ per_rule ingress spec.rules (renderings (ten ∷ net ∷ [])))
    × (egress_blocks s ≡ per_rule egress spec.rules (renderings (ten ∷ net ∷ [])))
build_managed_network_policy-blocks_example =
    build_managed_network_policy-blocks test_libs test_world policy (ten ∷ net ∷ []) built builds
