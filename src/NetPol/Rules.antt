-- ===== src/NetPol/Rules.antt =====
-- netpol.rs: `effective_directions`, the peers, and the ingress and egress rules.
pub mod Directions
pub mod Blocks
pub mod Total
use Prim.Native.Nat.{Ordering}
use Prim.Native.String.{compare}
use ipmaze.Base.{
  String, Bool, true, false, ◌&&◌, ◌||◌, Option, none, some, List, [], ◌∷◌, ◌++◌, map, is_empty,
  any, Result, ok, err, ◌>>=◌, ok_or, map_option, is_some, is_some_and, is_none_or, and_then, Eq,
  ◌==◌, string_eq, if◌then◌else◌,
}
use ipmaze.Base.BTree.{set_insert, set_extend, map_insert, map_get}
use ipmaze.Api.{
  Direction, ingress, egress, LabelSelectorOperator, in_values, not_in, exists, does_not_exist,
  LabelSelectorRequirement, LabelSelector, RuleSpec, CidrPolicy, StringMap, ObjectMeta,
  managed_network_policy_name,
}
use ipmaze.Extract.{NormalizedCidr}
use ipmaze.Networking.{
  KubeRequirement, KubeLabelSelector, IpBlock, NetworkPolicyPeer, NetworkPolicyIngressRule,
  NetworkPolicyEgressRule, NetworkPolicySpec, NetworkPolicy,
}
use ipmaze.Libs.{Libs}
use ipmaze.World.{World}
use ipmaze.NetPol.Selector.{RenderError, transpose, render_selector}

-- The derived `Ord` of `Direction`.
abbrev pub compare_direction : Direction → Direction → Ordering
compare_direction ingress ingress = Ordering.eq
compare_direction ingress egress = Ordering.lt
compare_direction egress ingress = Ordering.gt
compare_direction egress egress = Ordering.eq

-- A `BTreeSet<Direction>`, ascending.
unfoldable pub effective_directions : RuleSpec → List Direction
effective_directions rule = elim rule.directions [
  | some directions ↦ set_extend compare_direction [] directions
  | none ↦ set_extend compare_direction [] (ingress ∷ egress ∷ [])
]

-- `contains` on such a set.
abbrev pub has_direction : Direction → List Direction → Bool
has_direction d = any (λ e. elim (compare_direction d e) [ Ordering.eq ↦ true | _ ↦ false ])

unfoldable pub render_peer_selector : RuleSpec → Result NetworkPolicyPeer RenderError
render_peer_selector rule = do
  namespace_selector ← transpose (map_option render_selector rule.namespace_selector)
  pod_selector ← transpose (map_option render_selector rule.pod_selector)
  ok (record {
    ip_block = none;
    namespace_selector = namespace_selector;
    pod_selector = pod_selector;
  })

unfoldable pub cidr_peer : NormalizedCidr → NetworkPolicyPeer
cidr_peer c = record {
  ip_block = some (record { cidr = c.rendered; except = none });
  namespace_selector = none;
  pod_selector = none;
}

-- The peer of the selectors, if the rule has one.
unfoldable pub selector_peers : RuleSpec → Result (List NetworkPolicyPeer) RenderError
selector_peers rule =
    if is_some rule.namespace_selector || is_some rule.pod_selector
    then (do peer ← render_peer_selector rule; ok (peer ∷ []))
    else ok []

unfoldable pub build_peers :
    RuleSpec → List NormalizedCidr → Result (List NetworkPolicyPeer) RenderError
build_peers rule cidrs = do peers ← selector_peers rule; ok (peers ++ map cidr_peer cidrs)

unfoldable pub build_ingress_rules :
    List RuleSpec → List NormalizedCidr → Result (List NetworkPolicyIngressRule) RenderError
build_ingress_rules [] cidrs = ok []
build_ingress_rules (rule ∷ rules) cidrs =
    let rest = build_ingress_rules rules cidrs in
    if has_direction ingress (effective_directions rule)
    then (do
      peers ← build_peers rule cidrs
      later ← rest
      ok (record { from = some peers; ports = none } ∷ later))
    else rest

unfoldable pub build_egress_rules :
    List RuleSpec → List NormalizedCidr → Result (List NetworkPolicyEgressRule) RenderError
build_egress_rules [] cidrs = ok []
build_egress_rules (rule ∷ rules) cidrs =
    let rest = build_egress_rules rules cidrs in
    if has_direction egress (effective_directions rule)
    then (do
      peers ← build_peers rule cidrs
      later ← rest
      ok (record { to = some peers; ports = none } ∷ later))
    else rest

abbrev pub policy_type : Direction → String
policy_type ingress = "Ingress"
policy_type egress = "Egress"

-- The loops of `build_policy_types`, over a `BTreeSet<String>`.
unfoldable pub collect_policy_types : List String → List RuleSpec → List String
collect_policy_types set [] = set
collect_policy_types set (rule ∷ rules) =
    collect_policy_types (set_extend compare set (map policy_type (effective_directions rule)))
      rules

unfoldable pub build_policy_types : List RuleSpec → List String
build_policy_types rules = collect_policy_types [] rules
