-- ===== src/NetPol/Ownership.antt =====
-- The rendered policy: it is built from every valid policy, it is recognised as managed, and only
-- by the policy that it was built for.
use ipmaze.Base.{
  String, true, ◌&&◌, ◌≡◌, sym, ◌∙◌, none, some, List, [], map, arith, ok, >>=-eq-ok, ok_or,
  ok_or-eq-ok, is_some, is_some_and, ◌==◌, ==_refl, string_eq,
}
use ipmaze.Api.{ingress, egress, CidrPolicy}
use ipmaze.Libs.{Libs}
use ipmaze.World.{World}
use ipmaze.Networking.{
  KubeLabelSelector, NetworkPolicySpec, NetworkPolicy, NetworkPolicyIngressRule,
  NetworkPolicyEgressRule,
}
use ipmaze.Extract.{NormalizedCidr}
use ipmaze.Extract.Order.{renderings}
use ipmaze.Validation.{ValidatedPolicy, validate_policy}
use ipmaze.Validation.Sound.{validate_spec_iff}
use ipmaze.NetPol.{
  managed_by_value, managed_metadata, build_managed_network_policy, is_managed_network_policy_for,
}
use ipmaze.NetPol.Selector.{missing_namespace, render_subject_selector}
use ipmaze.NetPol.Selector.RoundTrip.{render_selector_total}
use ipmaze.NetPol.Rules.{build_ingress_rules, build_egress_rules, build_policy_types}
use ipmaze.NetPol.Rules.Total.{build_ingress_rules_total, build_egress_rules_total}
use ipmaze.NetPol.Rules.Blocks.{
  blocks_of, per_rule, build_ingress_rules-blocks, build_egress_rules-blocks,
}

abbrev pub ingress_blocks : NetworkPolicySpec → List (List String)
ingress_blocks spec = elim spec.ingress [
  | none ↦ []
  | some rules ↦ map (λ r. blocks_of r.from) rules
]

abbrev pub egress_blocks : NetworkPolicySpec → List (List String)
egress_blocks spec = elim spec.egress [ none ↦ [] | some rules ↦ map (λ r. blocks_of r.to) rules ]

module _ (L : Libs) (W : World L) where
  open L use {OwnerReference}
  open W use {name_any, namespace, controller_owner_ref}

  -- The parts of a policy that was built.
  pub record IsBuilt (policy : CidrPolicy OwnerReference) (cidrs : List NormalizedCidr)
      (np : NetworkPolicy OwnerReference) : Type 0 where
    pub ns : String
    pub subject : KubeLabelSelector
    pub ingress_rules : List NetworkPolicyIngressRule
    pub egress_rules : List NetworkPolicyEgressRule
    pub in_namespace : namespace policy ≡ some ns
    pub subject_rendered : render_subject_selector policy.spec.target.pod_selector ≡ ok subject
    pub ingress_built : build_ingress_rules policy.spec.rules cidrs ≡ ok ingress_rules
    pub egress_built : build_egress_rules policy.spec.rules cidrs ≡ ok egress_rules
    pub metadata_made : np.metadata ≡ managed_metadata L W policy ns
    pub spec_made :
        np.spec
        ≡ some (record {
          egress = some egress_rules;
          ingress = some ingress_rules;
          pod_selector = subject;
          policy_types = some (build_policy_types policy.spec.rules);
        })

  pub build-IsBuilt :
      (policy : CidrPolicy OwnerReference) (cidrs : List NormalizedCidr)
      (np : NetworkPolicy OwnerReference)
      → build_managed_network_policy L W policy cidrs ≡ ok np
      → IsBuilt policy cidrs np
  unfolding build_managed_network_policy
  build-IsBuilt policy cidrs np h =
      let (ns, e₀, h₁) = >>=-eq-ok (ok_or (namespace policy) missing_namespace) _ h in
      let (subject, e₁, h₂) =
        >>=-eq-ok (render_subject_selector policy.spec.target.pod_selector) _ h₁ in
      let (is, e₂, h₃) = >>=-eq-ok (build_ingress_rules policy.spec.rules cidrs) _ h₂ in
      let (es, e₃, h₄) = >>=-eq-ok (build_egress_rules policy.spec.rules cidrs) _ h₃ in
      record {
        ns = ns;
        subject = subject;
        ingress_rules = is;
        egress_rules = es;
        in_namespace = ok_or-eq-ok (namespace policy) missing_namespace e₀;
        subject_rendered = e₁;
        ingress_built = e₂;
        egress_built = e₃;
        metadata_made = sym (ground arith);
        spec_made = sym (ground arith);
      }

  -- A policy that validation accepts and that has a namespace is rendered, whatever the CIDRs: after
  -- validation the only rendering error is the missing namespace.
  pub build_managed_network_policy_total :
      (policy : CidrPolicy OwnerReference) (v : ValidatedPolicy L) (ns : String)
      (cidrs : List NormalizedCidr)
      → validate_policy L policy ≡ ok v
      → namespace policy ≡ some ns
      → (np : NetworkPolicy OwnerReference) × (build_managed_network_policy L W policy cidrs
          ≡ ok np)
  unfolding build_managed_network_policy validate_policy render_subject_selector
  build_managed_network_policy_total policy v ns cidrs valid in_ns =
      let sound = (validate_spec_iff L policy.spec v).0 valid in
      let (subject, e₁) = render_selector_total policy.spec.target.pod_selector sound.target in
      let (is, e₂) = build_ingress_rules_total cidrs policy.spec.rules sound.rules in
      let (es, e₃) = build_egress_rules_total cidrs policy.spec.rules sound.rules in
      (
        record {
          metadata = managed_metadata L W policy ns;
          spec = some (record {
            egress = some es;
            ingress = some is;
            pod_selector = subject;
            policy_types = some (build_policy_types policy.spec.rules);
          });
        },
        rw (in_ns, e₁, e₂, e₃),
      )

  managed-managed_metadata :
      (policy q : CidrPolicy OwnerReference) (ns : String) (np : NetworkPolicy OwnerReference)
      → np.metadata ≡ managed_metadata L W policy ns
      → is_managed_network_policy_for L W q np
        ≡ (name_any policy == name_any q)
          && is_some_and (controller_owner_ref q) (λ owner.
            is_some_and (controller_owner_ref policy) (λ mine. ◌==◌ ⦃e = L.owner_eq⦄ mine owner))
  unfolding is_managed_network_policy_for managed_metadata
  managed-managed_metadata policy q ns np made = rw made (ground (arith, ==_refl managed_by_value))

  -- The policy that is built for a CIDRPolicy is recognised as its own exactly when the CIDRPolicy
  -- has an owner reference to give. No other CIDRPolicy takes it for its own: one that does
  -- has the same name and the same owner reference.
  pub is_managed-build_managed_network_policy :
      (policy q : CidrPolicy OwnerReference) (cidrs : List NormalizedCidr)
      (np : NetworkPolicy OwnerReference)
      → build_managed_network_policy L W policy cidrs ≡ ok np
      → (is_managed_network_policy_for L W policy np ≡ is_some (controller_owner_ref policy))
        × (is_managed_network_policy_for L W q np ≡ true
            → (name_any q ≡ name_any policy)
              × (controller_owner_ref q ≡ controller_owner_ref policy))
  is_managed-build_managed_network_policy policy q cidrs np h =
      let b = build-IsBuilt policy cidrs np h in
      let own = managed-managed_metadata policy policy b.ns np b.metadata_made in
      let other = managed-managed_metadata policy q b.ns np b.metadata_made in
      (own ∙ same, λ taken. exclusive (sym other ∙ taken))
    where
      same :
          ((name_any policy == name_any policy)
            && is_some_and (controller_owner_ref policy) (λ owner.
              is_some_and (controller_owner_ref policy) (λ mine. ◌==◌ ⦃e = L.owner_eq⦄ mine owner)))
          ≡ is_some (controller_owner_ref policy)
      same = ground arith

      exclusive :
          ((name_any policy == name_any q)
              && is_some_and (controller_owner_ref q) (λ owner.
                is_some_and
                  (controller_owner_ref policy)
                  (λ mine. ◌==◌ ⦃e = L.owner_eq⦄ mine owner)))
            ≡ true
          → (name_any q ≡ name_any policy) × (controller_owner_ref q ≡ controller_owner_ref policy)
      exclusive t = (ground arith, ground arith)

  -- The allowed blocks of a policy that is built: for ingress and for egress, one list for each
  -- rule of the CIDRPolicy that applies, and each list is exactly the extracted CIDRs.
  pub build_managed_network_policy-blocks :
      (policy : CidrPolicy OwnerReference) (cidrs : List NormalizedCidr)
      (np : NetworkPolicy OwnerReference)
      → build_managed_network_policy L W policy cidrs ≡ ok np
      → (spec : NetworkPolicySpec) × (np.spec ≡ some spec)
        × (ingress_blocks spec ≡ per_rule ingress policy.spec.rules (renderings cidrs))
        × (egress_blocks spec ≡ per_rule egress policy.spec.rules (renderings cidrs))
  build_managed_network_policy-blocks policy cidrs np h =
      let b = build-IsBuilt policy cidrs np h in
      (
        _,
        b.spec_made,
        build_ingress_rules-blocks cidrs policy.spec.rules b.ingress_rules b.ingress_built,
        build_egress_rules-blocks cidrs policy.spec.rules b.egress_rules b.egress_built,
      )
