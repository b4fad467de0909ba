-- ===== src/Tests/Settling.antt =====
-- controller.rs: a second run, and a schedule that has run out.
use ipmaze.Base.{
  String, string_eq, string_dec, option_eq, list_eq, ◌≡◌, ◌≢◌, refl, some, [], ◌∷◌, ok,
}
use ipmaze.Text.{trim, trim_start, trim_end, is_whitespace, split, last_char, split_whitespace}
use ipmaze.Api.{CidrPolicy, managed_network_policy_name}
use ipmaze.Networking.{spec_eq, map_eq}
use ipmaze.Source.{
  follow_pointer, captured_address, normalize_source_address, of_trimmed, of_bare, with_url,
}
use ipmaze.Source.Hostname.{is_valid_hostname, is_valid_hostname_label, is_ascii_alphanumeric}
use ipmaze.Source.Resolve.{
  resolve_final_source, resolve_pointer, fetch_text, fetch_json, parse_json_bytes,
}
use ipmaze.Status.{status_source, patch_status_for_outcome, status_for_outcome, succeeded}
use ipmaze.Validation.{
  ValidatedPolicy, require_values, check_operator, validate_selector_requirement,
  validate_requirements, validate_selector, validate_optional, validate_directions, validate_rule,
  validate_rules, validate_pointer_regex, validate_resync_schedule, validate_spec, validate_policy,
}
use ipmaze.NetPol.Selector.{
  with_values, render_operator, render_requirement, render_requirements, render_selector,
  render_subject_selector,
}
use ipmaze.NetPol.Rules.{
  effective_directions, render_peer_selector, cidr_peer, selector_peers, build_peers,
  build_ingress_rules, build_egress_rules, collect_policy_types, build_policy_types,
}
use ipmaze.Extract.{
  compile_query, query_values, extract_cidrs, collect_cidrs, parse_cidr, of_ipnet, sort,
  insert_sorted, compare_cidr,
}
use ipmaze.NetPol.{build_managed_network_policy, managed_metadata}
use ipmaze.Controller.Managed.{
  apply_managed_network_policy, publish_policy_event, get_managed_network_policy,
}
use ipmaze.Controller.Requeue.{schedule_requeue_after, next_resync_after}
use ipmaze.Controller.{
  render_payload, apply_outcome, publish_outcome_event, classify_outcome, prepare, settle,
  reconcile, requeue,
}
use ipmaze.Controller.Settled.{reconcile_agreed, reconcile_exhausted}
use ipmaze.Tests.Crates.{test_libs}
use ipmaze.Tests.Outside.{test_world, TestState, find}
use ipmaze.Tests.Policies.{validated, policy, built}
use ipmaze.Tests.Cluster.{test_cluster, state_with}
use ipmaze.Tests.Reconciling.{start}

-- A second run, on a cluster that holds what the first has written, and the schedule `never`.
abbrev held : TestState
held =
    state_with (some "example.com")
      (record { namespace = "default"; name = "partners-managed"; object = built } ∷ [])

abbrev prepared_state : TestState
prepared_state = record held { requests = "https://example.com/" ∷ "https://example.com/" ∷ [] }

prepares :
    prepare test_libs test_world policy held
    ≡ (ok (validated, built, "10.0.0.0/8" ∷ "192.0.2.0/24" ∷ [], "default"), prepared_state)
unfolding reconcile prepare settle render_payload extract_cidrs query_values collect_cidrs
    parse_cidr of_ipnet sort insert_sorted compare_cidr classify_outcome apply_outcome
    apply_managed_network_policy patch_status_for_outcome status_source status_for_outcome succeeded
    publish_outcome_event publish_policy_event get_managed_network_policy schedule_requeue_after
    next_resync_after fetch_json parse_json_bytes follow_pointer captured_address
    build_managed_network_policy managed_metadata managed_network_policy_name
    render_subject_selector render_selector render_requirements render_requirement render_operator
    with_values build_ingress_rules build_egress_rules build_peers selector_peers
    render_peer_selector cidr_peer effective_directions build_policy_types collect_policy_types
    validate_policy validate_spec validate_rules validate_rule validate_optional validate_directions
    validate_selector validate_requirements validate_selector_requirement check_operator
    require_values validate_pointer_regex validate_resync_schedule compile_query
    normalize_source_address of_trimmed of_bare with_url resolve_final_source resolve_pointer
    fetch_text string_eq string_dec trim trim_start trim_end is_whitespace split split_whitespace
    last_char is_valid_hostname is_valid_hostname_label is_ascii_alphanumeric
prepares = refl

reconcile_agreed_example :
    find "default" "partners-managed" ((reconcile test_libs test_world policy held).1).policies
    ≡ some built
unfolding managed_network_policy_name string_eq string_dec
reconcile_agreed_example =
    reconcile_agreed test_libs test_world test_cluster policy validated built built
      ("10.0.0.0/8" ∷ "192.0.2.0/24" ∷ []) "default" held prepared_state "default"
      "partners-managed" refl prepares refl
      (record { spec = refl; labels = refl; annotations = refl; owners = refl })

-- The schedule of a date that never comes.
abbrev stale : CidrPolicy String
stale = record policy { spec = record policy.spec { resync_schedule = some "0 0 30 2 *" } }

abbrev stale_validated : ValidatedPolicy test_libs
stale_validated = record validated { resync_schedule = "0 0 0 30 2 *" }

stale_validates : validate_policy test_libs stale ≡ ok stale_validated
unfolding reconcile prepare settle render_payload extract_cidrs query_values collect_cidrs
    parse_cidr of_ipnet sort insert_sorted compare_cidr classify_outcome apply_outcome
    apply_managed_network_policy patch_status_for_outcome status_source status_for_outcome succeeded
    publish_outcome_event publish_policy_event get_managed_network_policy schedule_requeue_after
    next_resync_after fetch_json parse_json_bytes follow_pointer captured_address
    build_managed_network_policy managed_metadata managed_network_policy_name
    render_subject_selector render_selector render_requirements render_requirement render_operator
    with_values build_ingress_rules build_egress_rules build_peers selector_peers
    render_peer_selector cidr_peer effective_directions build_policy_types collect_policy_types
    validate_policy validate_spec validate_rules validate_rule validate_optional validate_directions
    validate_selector validate_requirements validate_selector_requirement check_operator
    require_values validate_pointer_regex validate_resync_schedule compile_query
    normalize_source_address of_trimmed of_bare with_url resolve_final_source resolve_pointer
    fetch_text string_eq string_dec trim trim_start trim_end is_whitespace split split_whitespace
    last_char is_valid_hostname is_valid_hostname_label is_ascii_alphanumeric
stale_validates = refl

reconcile_exhausted_example : (reconcile test_libs test_world stale start).0 ≢ ok (requeue 1)
unfolding string_eq string_dec
reconcile_exhausted_example =
    reconcile_exhausted test_libs test_world stale stale_validated start (requeue 1) refl
      stale_validates (λ now. refl)
