-- ===== src/NetPol/Rules/Blocks.antt =====
-- The CIDR blocks of the rendered rules, and that valid rules are rendered.
use ipmaze.Base.{
  String, ◌||◌, ◌≡◌, refl, sym, ap, ◌∙◌, inl, inr, Option, none, some, List, [], ◌∷◌, ◌++◌, map,
  arith, ok, >>=-eq-ok, is_some, if◌then◌else◌, Bool-cases,
}
use ipmaze.Api.{Direction, ingress, egress, RuleSpec}
use ipmaze.Extract.{NormalizedCidr}
use ipmaze.Extract.Order.{renderings}
use ipmaze.Networking.{NetworkPolicyPeer, NetworkPolicyIngressRule, NetworkPolicyEgressRule}
use ipmaze.NetPol.Rules.{
  selector_peers, effective_directions, has_direction, render_peer_selector, cidr_peer, build_peers,
  build_ingress_rules, build_egress_rules,
}
use ipmaze.NetPol.Rules.Directions.{applies, has_direction-effective_directions}

block_of : NetworkPolicyPeer → List String → List String
block_of peer rest = elim peer.ip_block [ none ↦ rest | some b ↦ b.cidr ∷ rest ]

-- The CIDRs of the peers that are IP blocks.
unfoldable pub blocks : List NetworkPolicyPeer → List String
unfolding block_of
blocks [] = []
blocks (p ∷ ps) = block_of p (blocks ps)

abbrev pub blocks_of : Option (List NetworkPolicyPeer) → List String
blocks_of none = []
blocks_of (some ps) = blocks ps

blocks-cidr_peers : (cidrs : List NormalizedCidr) → blocks (map cidr_peer cidrs) ≡ renderings cidrs
unfolding blocks cidr_peer
blocks-cidr_peers [] = refl
blocks-cidr_peers (c ∷ cs) = ap (◌∷◌ c.rendered) (blocks-cidr_peers cs)

render_peer_selector-no_block :
    (rule : RuleSpec) (p : NetworkPolicyPeer) → render_peer_selector rule ≡ ok p → p.ip_block ≡ none
unfolding render_peer_selector
render_peer_selector-no_block rule p h = ground arith

selector_peers-no_block :
    (rule : RuleSpec) (ps rest : List NetworkPolicyPeer)
    → selector_peers rule ≡ ok ps
    → blocks (ps ++ rest) ≡ blocks rest
unfolding selector_peers blocks
selector_peers-no_block rule ps rest h =
    elim (Bool-cases (is_some rule.namespace_selector || is_some rule.pod_selector)) [
      | inl some_peer ↦
          let (p, rendered, made) =
            >>=-eq-ok (render_peer_selector rule) (λ peer. ok (peer ∷ [])) (rw some_peer at h) in
          let e : p ∷ [] ≡ ps = cc made in
          ap (λ l. blocks (l ++ rest)) (sym e)
          ∙ ground (arith, render_peer_selector-no_block rule p rendered)
      | inr no_peer ↦ let e : [] ≡ ps = cc (rw no_peer at h) in ap (λ l. blocks (l ++ rest)) (sym e)
    ]

-- The selector peer in front is no IP block, so the blocks are exactly the CIDRs, in order.
pub blocks-build_peers :
    (rule : RuleSpec) (cidrs : List NormalizedCidr) (ps : List NetworkPolicyPeer)
    → build_peers rule cidrs ≡ ok ps
    → blocks ps ≡ renderings cidrs
unfolding build_peers
blocks-build_peers rule cidrs ps h =
    let (front, selected, made) = >>=-eq-ok (selector_peers rule) _ h in
    let e : front ++ map cidr_peer cidrs ≡ ps = cc made in
    ap blocks (sym e)
    ∙ selector_peers-no_block rule front (map cidr_peer cidrs) selected
    ∙ blocks-cidr_peers cidrs

-- One entry for each rule that applies to the direction.
unfoldable pub per_rule : Direction → List RuleSpec → List String → List (List String)
per_rule d [] texts = []
per_rule d (r ∷ rs) texts =
    let rest = per_rule d rs texts in if applies d r then texts ∷ rest else rest

module _ (cidrs : List NormalizedCidr) where
  -- The rendered ingress rules are one for each rule that applies to ingress, in order, and each
  -- allows exactly the given CIDRs.
  pub build_ingress_rules-blocks :
      (rules : List RuleSpec) (out : List NetworkPolicyIngressRule)
      → build_ingress_rules rules cidrs ≡ ok out
      → map (λ r. blocks_of r.from) out ≡ per_rule ingress rules (renderings cidrs)
  unfolding build_ingress_rules per_rule
  build_ingress_rules-blocks [] out h =
      let e : [] ≡ out = cc h in ap (map (λ r. blocks_of r.from)) (sym e)
  build_ingress_rules-blocks (rule ∷ rules) out h =
      elim (Bool-cases (has_direction ingress (effective_directions rule))) [
        | inl wanted ↦
            let (ps, peers, h₁) = >>=-eq-ok (build_peers rule cidrs) _ (rw wanted at h) in
            let (rest, later, h₂) = >>=-eq-ok (build_ingress_rules rules cidrs) _ h₁ in
            let e : record { from = some ps; ports = none } ∷ rest ≡ out = cc h₂ in
            ap (map (λ r. blocks_of r.from)) (sym e)
            ∙ rw (
              ← has_direction-effective_directions ingress rule,
              wanted,
              blocks-build_peers rule cidrs ps peers,
              build_ingress_rules-blocks rules rest later,
            )
        | inr unwanted ↦
            build_ingress_rules-blocks rules out (rw unwanted at h)
            ∙ rw (← has_direction-effective_directions ingress rule, unwanted)
      ]

  -- The rendered egress rules are one for each rule that applies to egress, in order, and each
  -- allows exactly the given CIDRs.
  pub build_egress_rules-blocks :
      (rules : List RuleSpec) (out : List NetworkPolicyEgressRule)
      → build_egress_rules rules cidrs ≡ ok out
      → map (λ r. blocks_of r.to) out ≡ per_rule egress rules (renderings cidrs)
  unfolding build_egress_rules per_rule
  build_egress_rules-blocks [] out h =
      let e : [] ≡ out = cc h in ap (map (λ r. blocks_of r.to)) (sym e)
  build_egress_rules-blocks (rule ∷ rules) out h =
      elim (Bool-cases (has_direction egress (effective_directions rule))) [
        | inl wanted ↦
            let (ps, peers, h₁) = >>=-eq-ok (build_peers rule cidrs) _ (rw wanted at h) in
            let (rest, later, h₂) = >>=-eq-ok (build_egress_rules rules cidrs) _ h₁ in
            let e : record { to = some ps; ports = none } ∷ rest ≡ out = cc h₂ in
            ap (map (λ r. blocks_of r.to)) (sym e)
            ∙ rw (
              ← has_direction-effective_directions egress rule,
              wanted,
              blocks-build_peers rule cidrs ps peers,
              build_egress_rules-blocks rules rest later,
            )
        | inr unwanted ↦
            build_egress_rules-blocks rules out (rw unwanted at h)
            ∙ rw (← has_direction-effective_directions egress rule, unwanted)
      ]
