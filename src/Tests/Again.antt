-- ===== src/Tests/Again.antt =====
-- controller.rs: a run, and the same run again, of a policy for egress alone, with an API server that
-- leaves empty lists of rules out.
use ipmaze.Base.{
  String, suc, string_eq, string_dec, option_eq, list_eq, ◌≡◌, ◌≢◌, refl, ap, ◌∙◌, Option, none,
  some, List, [], ◌∷◌, ok, map_option,
}
use ipmaze.Text.{trim, trim_start, trim_end, is_whitespace, split, last_char, split_whitespace}
use ipmaze.Api.{CidrPolicy, ingress, managed_network_policy_name}
use ipmaze.Networking.{NetworkPolicy, NetworkPolicySpec, spec_eq, map_eq}
use ipmaze.World.{World}
use ipmaze.Source.{
  follow_pointer, captured_address, normalize_source_address, of_trimmed, of_bare, with_url,
}
use ipmaze.Source.Hostname.{is_valid_hostname, is_valid_hostname_label, is_ascii_alphanumeric}
use ipmaze.Source.Resolve.{
  resolve_final_source, resolve_pointer, fetch_text, fetch_json, parse_json_bytes,
}
use ipmaze.Status.{status_source, patch_status_for_outcome, status_for_outcome, succeeded}
use ipmaze.Validation.{
  require_values, check_operator, validate_selector_requirement, validate_requirements,
  validate_selector, validate_optional, validate_directions, validate_rule, validate_rules,
  validate_pointer_regex, validate_resync_schedule, validate_spec, validate_policy,
}
use ipmaze.NetPol.Selector.{
  with_values, render_operator, render_requirement, render_requirements, render_selector,
  render_subject_selector,
}
use ipmaze.NetPol.Rules.{
  effective_directions, render_peer_selector, cidr_peer, selector_peers, build_peers,
  build_ingress_rules, build_egress_rules, collect_policy_types, build_policy_types,
}
use ipmaze.Extract.{
  compile_query, query_values, extract_cidrs, collect_cidrs, parse_cidr, of_ipnet, sort,
  insert_sorted, compare_cidr,
}
use ipmaze.NetPol.{build_managed_network_policy, managed_metadata, is_managed_network_policy_for}
use ipmaze.Controller.Managed.{
  check_owned, apply_managed_network_policy, publish_policy_event, get_managed_network_policy,
}
use ipmaze.Controller.Requeue.{schedule_requeue_after, next_resync_after}
use ipmaze.Controller.{
  render_payload, apply_outcome, publish_outcome_event, classify_outcome, managed_policy_matches,
  prepare, settle, reconcile, requeue,
}
use ipmaze.Controller.Calls.{Logged, logged}
use ipmaze.Controller.Rewrites.{OmitsEmpty, writes, reconcile_rewrites}
use ipmaze.Tests.Crates.{test_libs}
use ipmaze.Tests.Outside.{test_world, find}
use ipmaze.Tests.Policies.{policy, outward}
use ipmaze.Tests.Reconciling.{start}

-- A list that is empty is left out.
abbrev omit_empty : {A : Type 0} → Option (List A) → Option (List A)
omit_empty none = none
omit_empty (some []) = none
omit_empty (some (a ∷ more)) = some (a ∷ more)

omit_empty-ne : {A : Type 0} (o : Option (List A)) → omit_empty o ≢ some []
omit_empty-ne none h = cc h
omit_empty-ne (some []) h = cc h
omit_empty-ne (some (a ∷ more)) h = cc h

abbrev lean_spec : NetworkPolicySpec → NetworkPolicySpec
lean_spec spec = record spec { ingress = omit_empty spec.ingress; egress = omit_empty spec.egress }

abbrev lean : NetworkPolicy String → NetworkPolicy String
lean np = record np { spec = map_option lean_spec np.spec }

abbrev lean_world : World test_libs
lean_world = record test_world {
  get_opt_network_policy = λ ns name s. (ok (map_option lean (find ns name s.policies)), s);
}

lean_specs :
    (o : Option NetworkPolicySpec) (spec : NetworkPolicySpec)
    → map_option lean_spec o ≡ some spec
    → (spec.ingress ≢ some []) × (spec.egress ≢ some [])
lean_specs none spec h = absurd (cc h)
lean_specs (some sp) spec h =
    let same : lean_spec sp ≡ spec = cc h in
    (
      λ e. omit_empty-ne sp.ingress (ap (λ x. x.ingress) same ∙ e),
      λ e. omit_empty-ne sp.egress (ap (λ x. x.egress) same ∙ e),
    )

lean_policies :
    (found : Option (NetworkPolicy String)) (np : NetworkPolicy String) (spec : NetworkPolicySpec)
    → map_option lean found ≡ some np
    → np.spec ≡ some spec
    → (spec.ingress ≢ some []) × (spec.egress ≢ some [])
lean_policies none np spec h is = absurd (cc h)
lean_policies (some stored) np spec h is =
    let same : lean stored ≡ np = cc h in lean_specs stored.spec spec (ap (λ x. x.spec) same ∙ is)

lean_world-OmitsEmpty : OmitsEmpty test_libs lean_world
lean_world-OmitsEmpty n m s np spec h is = lean_policies (find n m s.policies) np spec (cc h) is

abbrev outgoing : CidrPolicy String
outgoing = record policy { spec = record policy.spec { rules = outward ∷ [] } }

abbrev first_end : Logged test_libs lean_world
first_end = (reconcile test_libs (logged test_libs lean_world) outgoing (start, [])).1

again : (reconcile test_libs (logged test_libs lean_world) outgoing first_end).0 ≡ ok (requeue 1)
unfolding reconcile prepare settle render_payload extract_cidrs query_values collect_cidrs
    parse_cidr of_ipnet sort insert_sorted compare_cidr classify_outcome apply_outcome
    apply_managed_network_policy patch_status_for_outcome status_source status_for_outcome succeeded
    publish_outcome_event publish_policy_event get_managed_network_policy schedule_requeue_after
    next_resync_after fetch_json parse_json_bytes follow_pointer captured_address
    build_managed_network_policy managed_metadata managed_network_policy_name
    render_subject_selector render_selector render_requirements render_requirement render_operator
    with_values build_ingress_rules build_egress_rules build_peers selector_peers
    render_peer_selector cidr_peer effective_directions build_policy_types collect_policy_types
    validate_policy validate_spec validate_rules validate_rule validate_optional validate_directions
    validate_selector validate_requirements validate_selector_requirement check_operator
    require_values validate_pointer_regex validate_resync_schedule compile_query
    normalize_source_address of_trimmed of_bare with_url resolve_final_source resolve_pointer
    fetch_text string_eq string_dec trim trim_start trim_end is_whitespace split split_whitespace
    last_char is_valid_hostname is_valid_hostname_label is_ascii_alphanumeric
    is_managed_network_policy_for check_owned managed_policy_matches option_eq spec_eq
again = refl

reconcile_rewrites_example :
    writes test_libs lean_world
      ((reconcile test_libs (logged test_libs lean_world) outgoing first_end).1).1
    ≡ suc (writes test_libs lean_world first_end.1)
reconcile_rewrites_example =
    reconcile_rewrites test_libs lean_world ingress outgoing first_end (requeue 1)
      lean_world-OmitsEmpty refl refl again
