-- ===== src/Tests/Unit/Netpol.antt =====
-- netpol.rs, `mod tests`.
use ipmaze.Base.{
  String, Bool, true, false, not, ◌≡◌, refl, ◌&&◌, ◌==◌, ◌=ℕ◌, Option, none, some, List, [], ◌∷◌,
  Result, length, is_some, is_some_and, string_eq, string_dec, option_eq, list_eq,
}
use Prim.Native.String.{compare}
use ipmaze.Base.BTree.{map_get}
use ipmaze.Api.{
  CidrPolicy, LabelSelector, RuleSpec, Direction, ingress, egress, managed_network_policy_name,
}
use ipmaze.Networking.{NetworkPolicy, NetworkPolicySpec, NetworkPolicyPeer}
use ipmaze.Extract.{NormalizedCidr, v4, v6}
use ipmaze.NetPol.{
  build_managed_network_policy, managed_metadata, is_managed_network_policy_for, managed_by_label,
  managed_by_value, source_policy_annotation,
}
use ipmaze.NetPol.Selector.{
  RenderError, with_values, render_operator, render_requirement, render_requirements,
  render_selector, render_subject_selector,
}
use ipmaze.NetPol.Rules.{
  effective_directions, render_peer_selector, cidr_peer, selector_peers, build_peers,
  build_ingress_rules, build_egress_rules, collect_policy_types, build_policy_types,
}
use ipmaze.Tests.Crates.{test_libs}
use ipmaze.Tests.Outside.{test_world}
use ipmaze.Tests.Unit.{unwrap_and}

abbrev labelled : String → String → LabelSelector
labelled key value = record { match_labels = some ((key, value) ∷ []); match_expressions = none }

abbrev policy_with_rule : RuleSpec → CidrPolicy String
policy_with_rule rule = record {
  metadata = record {
    name = some "office-allowlist";
    namespace = some "payments";
    uid = some "12345";
    deletion_timestamp = none;
    labels = none;
    annotations = none;
    owner_references = none;
  };
  spec = record {
    source = record { address = "example.invalid"; pointer = none; jmes_path = "prefixes" };
    resync_schedule = none;
    target = record { pod_selector = labelled "app" "api" };
    rules = rule ∷ [];
  };
  status = none;
}

abbrev sample_cidrs : List NormalizedCidr
sample_cidrs =
    record { rendered = "10.0.0.0/24"; family = v4 }
    ∷ record { rendered = "2001:db8::/32"; family = v6 }
    ∷ []

abbrev built_for : RuleSpec → List NormalizedCidr → Result (NetworkPolicy String) RenderError
built_for rule cidrs =
    build_managed_network_policy test_libs test_world (policy_with_rule rule) cidrs

abbrev spec_and : Result (NetworkPolicy String) RenderError → (NetworkPolicySpec → Bool) → Bool
spec_and rendered p = unwrap_and rendered (λ np. is_some_and np.spec p)

-- The rule of most tests.
abbrev trusted : Option (List Direction) → RuleSpec
trusted directions = record {
  directions = directions;
  pod_selector = some (labelled "access-tier" "trusted");
  namespace_selector = none;
}

abbrev ingress_only_rule_renders_only_ingress : Bool
ingress_only_rule_renders_only_ingress =
    spec_and (built_for (trusted (some (ingress ∷ []))) sample_cidrs) (λ spec.
      is_some_and spec.policy_types (λ types. types == "Ingress" ∷ [])
      && is_some_and spec.ingress (λ rules. length rules =ℕ 1)
      && is_some_and spec.egress (λ rules. length rules =ℕ 0))

abbrev omitted_directions_render_both_policy_types : Bool
omitted_directions_render_both_policy_types =
    spec_and (built_for (trusted none) sample_cidrs) (λ spec.
      is_some_and spec.policy_types (λ types. types == "Egress" ∷ "Ingress" ∷ [])
      && is_some_and spec.ingress (λ rules. length rules =ℕ 1)
      && is_some_and spec.egress (λ rules. length rules =ℕ 1))

-- `filter_map` of the blocks' texts.
abbrev ipblocks : List NetworkPolicyPeer → List String
ipblocks [] = []
ipblocks (peer ∷ peers) =
    let rest = ipblocks peers in elim peer.ip_block [ none ↦ rest | some block ↦ block.cidr ∷ rest ]

abbrev first_and {ℓ} : {A : Type ℓ} → List A → (A → Bool) → Bool
first_and [] p = false
first_and (a ∷ _) p = p a

-- The peers of the first rule, each way.
abbrev ingress_peers_and :
    Result (NetworkPolicy String) RenderError → (List NetworkPolicyPeer → Bool) → Bool
ingress_peers_and rendered p =
    spec_and rendered (λ spec.
      is_some_and spec.ingress (λ rules. first_and rules (λ rule. is_some_and rule.from p)))

abbrev egress_peers_and :
    Result (NetworkPolicy String) RenderError → (List NetworkPolicyPeer → Bool) → Bool
egress_peers_and rendered p =
    spec_and rendered
      (λ spec. is_some_and spec.egress (λ rules. first_and rules (λ rule. is_some_and rule.to p)))

abbrev mixed_family_cidrs_are_rendered_as_ipblocks : Bool
mixed_family_cidrs_are_rendered_as_ipblocks =
    ingress_peers_and (built_for rule sample_cidrs)
      (λ peers. ipblocks peers == "10.0.0.0/24" ∷ "2001:db8::/32" ∷ [])
  where
    rule : RuleSpec
    rule = record {
      directions = some (ingress ∷ []);
      pod_selector = none;
      namespace_selector = some (labelled "kubernetes.io/metadata.name" "shared-services");
    }

abbrev empty_cidr_sets_keep_selector_peer_without_ipblocks : Bool
empty_cidr_sets_keep_selector_peer_without_ipblocks =
    egress_peers_and (built_for (trusted (some (egress ∷ []))) []) (λ peers.
      length peers =ℕ 1
      && first_and peers (λ peer. not (is_some peer.ip_block))
      && first_and peers (λ peer. is_some peer.pod_selector))

abbrev one_cidr : String → List NormalizedCidr
one_cidr text = record { rendered = text; family = v4 } ∷ []

abbrev stale_cidrs_are_removed_when_re_rendering : Bool
stale_cidrs_are_removed_when_re_rendering =
    ingress_peers_and (built_for (trusted (some (ingress ∷ []))) (one_cidr "10.0.0.0/24"))
      (λ peers. ipblocks peers == "10.0.0.0/24" ∷ [])
    && ingress_peers_and (built_for (trusted (some (ingress ∷ []))) (one_cidr "192.0.2.0/24"))
        (λ peers. ipblocks peers == "192.0.2.0/24" ∷ [])

abbrev rendered_policy_is_marked_as_controller_managed : Bool
rendered_policy_is_marked_as_controller_managed =
    unwrap_and (built_for (trusted (some (ingress ∷ []))) sample_cidrs) (λ np.
      is_some_and np.metadata.labels
        (λ labels. map_get compare managed_by_label labels == some managed_by_value)
      && is_some_and np.metadata.annotations
          (λ notes. map_get compare source_policy_annotation notes == some "office-allowlist")
      && is_some_and np.metadata.owner_references (λ owners. length owners =ℕ 1))

abbrev ownership_check_rejects_foreign_network_policy : Bool
ownership_check_rejects_foreign_network_policy = unwrap_and (built_for rule sample_cidrs) (λ np.
    not (
      is_managed_network_policy_for test_libs test_world (policy_with_rule rule)
        (record np { metadata = record np.metadata { annotations = some [] } })))
  where
    rule : RuleSpec
    rule = trusted (some (ingress ∷ []))

pub netpol_tests_pass :
    ingress_only_rule_renders_only_ingress && omitted_directions_render_both_policy_types
      && mixed_family_cidrs_are_rendered_as_ipblocks
      && empty_cidr_sets_keep_selector_peer_without_ipblocks
      && stale_cidrs_are_removed_when_re_rendering
      && rendered_policy_is_marked_as_controller_managed
      && ownership_check_rejects_foreign_network_policy
    ≡ true
unfolding build_managed_network_policy managed_metadata managed_network_policy_name
    is_managed_network_policy_for render_subject_selector render_selector render_requirements
    render_requirement render_operator with_values build_ingress_rules build_egress_rules
    build_peers selector_peers render_peer_selector cidr_peer effective_directions
    build_policy_types collect_policy_types string_eq string_dec list_eq option_eq
netpol_tests_pass = refl
