-- ===== src/Tests/Raced.antt =====
-- controller.rs: somebody else takes the managed name between the read and the apply.
use ipmaze.Base.{
  map_option, string_eq, string_dec, option_eq, list_eq, ◌≡◌, refl, some, [], ◌∷◌, ok,
}
use ipmaze.Text.{trim, trim_start, trim_end, is_whitespace, split, last_char, split_whitespace}
use ipmaze.Api.{managed_network_policy_name}
use ipmaze.Networking.{spec_eq, map_eq}
use ipmaze.Source.{
  follow_pointer, captured_address, normalize_source_address, of_trimmed, of_bare, with_url,
}
use ipmaze.Source.Hostname.{is_valid_hostname, is_valid_hostname_label, is_ascii_alphanumeric}
use ipmaze.Source.Resolve.{
  resolve_final_source, resolve_pointer, fetch_text, fetch_json, parse_json_bytes,
}
use ipmaze.Status.{status_source, patch_status_for_outcome, status_for_outcome, succeeded}
use ipmaze.Validation.{
  require_values, check_operator, validate_selector_requirement, validate_requirements,
  validate_selector, validate_optional, validate_directions, validate_rule, validate_rules,
  validate_pointer_regex, validate_resync_schedule, validate_spec, validate_policy,
}
use ipmaze.NetPol.Selector.{
  with_values, render_operator, render_requirement, render_requirements, render_selector,
  render_subject_selector,
}
use ipmaze.NetPol.Rules.{
  effective_directions, render_peer_selector, cidr_peer, selector_peers, build_peers,
  build_ingress_rules, build_egress_rules, collect_policy_types, build_policy_types,
}
use ipmaze.Extract.{
  compile_query, query_values, extract_cidrs, collect_cidrs, parse_cidr, of_ipnet, sort,
  insert_sorted, compare_cidr,
}
use ipmaze.NetPol.{build_managed_network_policy, managed_metadata}
use ipmaze.Controller.Managed.{
  apply_managed_network_policy, publish_policy_event, get_managed_network_policy,
}
use ipmaze.Controller.Requeue.{schedule_requeue_after, next_resync_after}
use ipmaze.Controller.{
  render_payload, apply_outcome, publish_outcome_event, classify_outcome, prepare, settle,
  reconcile, requeue,
}
use ipmaze.Controller.Raced.{raced, reconcile-raced}
use ipmaze.Tests.Crates.{test_libs}
use ipmaze.Tests.Outside.{test_world, TestState, find}
use ipmaze.World.{World}
use ipmaze.Tests.Policies.{validated, policy, built}
use ipmaze.Tests.Cluster.{test_cluster, stranger}
use ipmaze.Tests.Reconciling.{start}

-- A stranger's object appears under the managed name.
abbrev occupy : TestState → TestState
occupy s = record s {
  policies =
      record { namespace = "default"; name = "partners-managed"; object = stranger } ∷ s.policies;
}

abbrev contested : World test_libs
contested = raced test_libs test_world occupy

abbrev prepared_state : TestState
prepared_state = record start { requests = "https://example.com/" ∷ "https://example.com/" ∷ [] }

prepares_contested :
    prepare test_libs contested policy start
    ≡ (ok (validated, built, "10.0.0.0/8" ∷ "192.0.2.0/24" ∷ [], "default"), prepared_state)
unfolding reconcile prepare settle render_payload extract_cidrs query_values collect_cidrs
    parse_cidr of_ipnet sort insert_sorted compare_cidr classify_outcome apply_outcome
    apply_managed_network_policy patch_status_for_outcome status_source status_for_outcome succeeded
    publish_outcome_event publish_policy_event get_managed_network_policy schedule_requeue_after
    next_resync_after fetch_json parse_json_bytes follow_pointer captured_address
    build_managed_network_policy managed_metadata managed_network_policy_name
    render_subject_selector render_selector render_requirements render_requirement render_operator
    with_values build_ingress_rules build_egress_rules build_peers selector_peers
    render_peer_selector cidr_peer effective_directions build_policy_types collect_policy_types
    validate_policy validate_spec validate_rules validate_rule validate_optional validate_directions
    validate_selector validate_requirements validate_selector_requirement check_operator
    require_values validate_pointer_regex validate_resync_schedule compile_query
    normalize_source_address of_trimmed of_bare with_url resolve_final_source resolve_pointer
    fetch_text string_eq string_dec trim trim_start trim_end is_whitespace split split_whitespace
    last_char is_valid_hostname is_valid_hostname_label is_ascii_alphanumeric
prepares_contested = refl

reconciles_contested : (reconcile test_libs contested policy start).0 ≡ ok (requeue 1)
unfolding reconcile prepare settle render_payload extract_cidrs query_values collect_cidrs
    parse_cidr of_ipnet sort insert_sorted compare_cidr classify_outcome apply_outcome
    apply_managed_network_policy patch_status_for_outcome status_source status_for_outcome succeeded
    publish_outcome_event publish_policy_event get_managed_network_policy schedule_requeue_after
    next_resync_after fetch_json parse_json_bytes follow_pointer captured_address
    build_managed_network_policy managed_metadata managed_network_policy_name
    render_subject_selector render_selector render_requirements render_requirement render_operator
    with_values build_ingress_rules build_egress_rules build_peers selector_peers
    render_peer_selector cidr_peer effective_directions build_policy_types collect_policy_types
    validate_policy validate_spec validate_rules validate_rule validate_optional validate_directions
    validate_selector validate_requirements validate_selector_requirement check_operator
    require_values validate_pointer_regex validate_resync_schedule compile_query
    normalize_source_address of_trimmed of_bare with_url resolve_final_source resolve_pointer
    fetch_text string_eq string_dec trim trim_start trim_end is_whitespace split split_whitespace
    last_char is_valid_hostname is_valid_hostname_label is_ascii_alphanumeric
reconciles_contested = refl

reconcile-raced_example :
    map_option
      (λ o. o.spec)
      (find "default" "partners-managed" ((reconcile test_libs contested policy start).1).policies)
    ≡ some built.spec
unfolding managed_network_policy_name string_eq string_dec
reconcile-raced_example =
    reconcile-raced test_libs test_world test_cluster occupy policy validated built
      ("10.0.0.0/8" ∷ "192.0.2.0/24" ∷ []) "default" start prepared_state (requeue 1) refl
      prepares_contested refl reconciles_contested
