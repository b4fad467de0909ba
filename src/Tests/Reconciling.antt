-- ===== src/Tests/Reconciling.antt =====
-- controller.rs: one policy is reconciled, also on top of somebody else's.
use ipmaze.Base.{
  string_eq, string_dec, option_eq, list_eq, ◌≡◌, ◌≢◌, ◌<◌, refl, none, some, [], ◌∷◌, ok, err,
}
use ipmaze.Text.{trim, trim_start, trim_end, is_whitespace, split, last_char, split_whitespace}
use ipmaze.Api.{managed_network_policy_name}
use ipmaze.Networking.{spec_eq, map_eq}
use ipmaze.Source.{
  pointer_retrieval, follow_pointer, captured_address, normalize_source_address, of_trimmed,
  of_bare, with_url,
}
use ipmaze.Source.Hostname.{is_valid_hostname, is_valid_hostname_label, is_ascii_alphanumeric}
use ipmaze.Source.Resolve.{
  resolve_final_source, resolve_pointer, fetch_text, fetch_json, parse_json_bytes,
}
use ipmaze.Status.{
  ReconcileStage, status_source, patch_status_for_outcome, status_for_outcome, succeeded,
}
use ipmaze.Validation.{
  require_values, check_operator, validate_selector_requirement, validate_requirements,
  validate_selector, validate_optional, validate_directions, validate_rule, validate_rules,
  validate_pointer_regex, validate_resync_schedule, validate_spec, validate_policy,
}
use ipmaze.NetPol.Selector.{
  with_values, render_operator, render_requirement, render_requirements, render_selector,
  render_subject_selector,
}
use ipmaze.NetPol.Rules.{
  effective_directions, render_peer_selector, cidr_peer, selector_peers, build_peers,
  build_ingress_rules, build_egress_rules, collect_policy_types, build_policy_types,
}
use ipmaze.Extract.{
  compile_query, query_values, extract_cidrs, collect_cidrs, parse_cidr, of_ipnet, sort,
  insert_sorted, compare_cidr,
}
use ipmaze.NetPol.{build_managed_network_policy, managed_metadata, is_managed_network_policy_for}
use ipmaze.Controller.Managed.{
  apply_managed_network_policy, publish_policy_event, get_managed_network_policy,
}
use ipmaze.Controller.Requeue.{schedule_requeue_after, next_resync_after}
use ipmaze.Controller.{
  render_payload, apply_outcome, publish_outcome_event, classify_outcome, prepare, settle,
  reconcile, await_change, requeue,
}
use ipmaze.Controller.Collision.{IsForeign, reconcile_foreign}
use ipmaze.Controller.Enforcement.{IsEnforced, reconcile-IsEnforced}
use ipmaze.Controller.Failsafe.{reconcile_early}
use ipmaze.Controller.Resync.{reconcile-IsLater}
use ipmaze.Controller.Errors.{ReconcileError, fetch_error, stage}
use ipmaze.Tests.Crates.{test_libs}
use ipmaze.Tests.Outside.{test_world, TestState, find}
use ipmaze.Tests.Policies.{policy, built}
use ipmaze.Tests.Cluster.{test_cluster, stranger, state_with}

-- A page that names the host of the list, and an unrelated policy.
abbrev pub start : TestState
start =
    state_with (some "example.com")
      (record { namespace = "default"; name = "other"; object = built } ∷ [])

abbrev occupied : TestState
occupied =
    state_with (some "example.com")
      (record { namespace = "default"; name = "partners-managed"; object = stranger } ∷ [])

occupied-IsForeign : IsForeign test_libs test_world test_cluster policy "default" occupied
unfolding managed_network_policy_name is_managed_network_policy_for string_eq string_dec
occupied-IsForeign = record { np = stranger; here = refl; found = refl; foreign = refl }

reconcile_foreign_example :
    find "default" "partners-managed" ((reconcile test_libs test_world policy occupied).1).policies
    ≡ some stranger
unfolding string_eq string_dec
reconcile_foreign_example =
    (reconcile_foreign test_libs test_world test_cluster policy occupied "default"
        occupied-IsForeign).0
      "default" "partners-managed"

abbrev pub unreachable : TestState
unreachable =
    state_with none
      (record { namespace = "default"; name = "partners-managed"; object = built } ∷ [])

abbrev pub timeout : ReconcileError test_libs test_world
timeout = fetch_error (pointer_retrieval "timeout")

times_out : (reconcile test_libs test_world policy unreachable).0 ≡ err timeout
unfolding reconcile prepare validate_policy validate_spec validate_rules validate_rule
    validate_optional validate_directions validate_selector validate_requirements
    validate_selector_requirement check_operator require_values validate_pointer_regex
    validate_resync_schedule compile_query normalize_source_address of_trimmed of_bare with_url
    resolve_final_source resolve_pointer fetch_text string_eq string_dec trim trim_start trim_end
    is_whitespace split split_whitespace last_char is_valid_hostname is_valid_hostname_label
    is_ascii_alphanumeric
times_out = refl

reconcile_early_example :
    find "default" "partners-managed"
      ((reconcile test_libs test_world policy unreachable).1).policies
    ≡ some built
unfolding stage string_eq string_dec
reconcile_early_example =
    reconcile_early test_libs test_world test_cluster policy unreachable timeout "default"
      "partners-managed" times_out not_scheduling not_api
  where
    not_scheduling : stage timeout ≢ ReconcileStage.scheduling
    not_scheduling = cc

    not_api : stage timeout ≢ ReconcileStage.kubernetes_api
    not_api = cc

pub reconciles_ok : (reconcile test_libs test_world policy start).0 ≡ ok (requeue 1)
unfolding reconcile prepare settle render_payload extract_cidrs query_values collect_cidrs
    parse_cidr of_ipnet sort insert_sorted compare_cidr classify_outcome apply_outcome
    apply_managed_network_policy patch_status_for_outcome status_source status_for_outcome succeeded
    publish_outcome_event publish_policy_event get_managed_network_policy schedule_requeue_after
    next_resync_after fetch_json parse_json_bytes follow_pointer captured_address
    build_managed_network_policy managed_metadata managed_network_policy_name
    render_subject_selector render_selector render_requirements render_requirement render_operator
    with_values build_ingress_rules build_egress_rules build_peers selector_peers
    render_peer_selector cidr_peer effective_directions build_policy_types collect_policy_types
    validate_policy validate_spec validate_rules validate_rule validate_optional validate_directions
    validate_selector validate_requirements validate_selector_requirement check_operator
    require_values validate_pointer_regex validate_resync_schedule compile_query
    normalize_source_address of_trimmed of_bare with_url resolve_final_source resolve_pointer
    fetch_text string_eq string_dec trim trim_start trim_end is_whitespace split split_whitespace
    last_char is_valid_hostname is_valid_hostname_label is_ascii_alphanumeric
reconciles_ok = refl

reconcile-IsEnforced_example :
    IsEnforced test_libs test_world test_cluster.netpol_at policy start
      ((reconcile test_libs test_world policy start).1)
reconcile-IsEnforced_example =
    reconcile-IsEnforced test_libs test_world test_cluster policy start (requeue 1) refl
      reconciles_ok

reconcile-IsLater_example :
    (policy.metadata.deletion_timestamp ≡ none → 0 < 1)
    × (policy.metadata.deletion_timestamp ≢ none → requeue 1 ≡ await_change)
reconcile-IsLater_example =
    reconcile-IsLater test_libs test_world policy start (requeue 1) reconciles_ok
