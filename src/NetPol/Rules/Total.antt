-- ===== src/NetPol/Rules/Total.antt =====
-- Rules that validation accepts are rendered, in both directions.
use ipmaze.Base.{
  ◌||◌, ◌≡◌, refl, inl, inr, Option, none, some, List, [], ◌∷◌, ◌++◌, map, All, ok, map_option,
  is_some, Bool-cases,
}
use ipmaze.Api.{ingress, egress, LabelSelector, RuleSpec}
use ipmaze.Extract.{NormalizedCidr}
use ipmaze.Networking.{
  KubeLabelSelector, NetworkPolicyPeer, NetworkPolicyIngressRule, NetworkPolicyEgressRule,
}
use ipmaze.Validation.Rules.{IsValidOptional, IsValidRule}
use ipmaze.NetPol.Selector.{transpose, render_selector}
use ipmaze.NetPol.Selector.RoundTrip.{render_selector_total}
use ipmaze.NetPol.Rules.{
  effective_directions, has_direction, render_peer_selector, selector_peers, cidr_peer, build_peers,
  build_ingress_rules, build_egress_rules,
}

optional_total :
    (o : Option LabelSelector)
    → IsValidOptional o
    → (k : Option KubeLabelSelector) × (transpose (map_option render_selector o) ≡ ok k)
optional_total none h = (none, refl)
optional_total (some s) h = let (k, e) = render_selector_total s h in (some k, rw e)

peer_total :
    (rule : RuleSpec)
    → IsValidRule rule
    → (p : NetworkPolicyPeer) × (render_peer_selector rule ≡ ok p)
unfolding render_peer_selector
peer_total rule v =
    let (n, en) = optional_total rule.namespace_selector v.namespaces in
    let (p, ep) = optional_total rule.pod_selector v.pods in
    (record { ip_block = none; namespace_selector = n; pod_selector = p }, rw (en, ep))

selector_peers_total :
    (rule : RuleSpec)
    → IsValidRule rule
    → (ps : List NetworkPolicyPeer) × (selector_peers rule ≡ ok ps)
unfolding selector_peers
selector_peers_total rule v =
    elim (Bool-cases (is_some rule.namespace_selector || is_some rule.pod_selector)) [
      | inl some_peer ↦ let (p, e) = peer_total rule v in (p ∷ [], rw (some_peer, e))
      | inr no_peer ↦ ([], rw no_peer)
    ]

module _ (cidrs : List NormalizedCidr) where
  build_peers_total :
      (rule : RuleSpec)
      → IsValidRule rule
      → (ps : List NetworkPolicyPeer) × (build_peers rule cidrs ≡ ok ps)
  unfolding build_peers
  build_peers_total rule v =
      let (ps, e) = selector_peers_total rule v in (ps ++ map cidr_peer cidrs, rw e)

  pub build_ingress_rules_total :
      (rules : List RuleSpec)
      → All IsValidRule rules
      → (out : List NetworkPolicyIngressRule) × (build_ingress_rules rules cidrs ≡ ok out)
  unfolding build_ingress_rules
  build_ingress_rules_total [] v = ([], refl)
  build_ingress_rules_total (rule ∷ rules) v =
      let (ps, e) = build_peers_total rule v.0 in
      let (out, later) = build_ingress_rules_total rules v.1 in
      elim (Bool-cases (has_direction ingress (effective_directions rule))) [
        | inl wanted ↦ (record { from = some ps; ports = none } ∷ out, rw (wanted, e, later))
        | inr unwanted ↦ (out, rw (unwanted, later))
      ]

  pub build_egress_rules_total :
      (rules : List RuleSpec)
      → All IsValidRule rules
      → (out : List NetworkPolicyEgressRule) × (build_egress_rules rules cidrs ≡ ok out)
  unfolding build_egress_rules
  build_egress_rules_total [] v = ([], refl)
  build_egress_rules_total (rule ∷ rules) v =
      let (ps, e) = build_peers_total rule v.0 in
      let (out, later) = build_egress_rules_total rules v.1 in
      elim (Bool-cases (has_direction egress (effective_directions rule))) [
        | inl wanted ↦ (record { to = some ps; ports = none } ∷ out, rw (wanted, e, later))
        | inr unwanted ↦ (out, rw (unwanted, later))
      ]
