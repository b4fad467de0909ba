-- ===== src/Tests/Runtime/Reconciles.antt =====
-- tests/controller_runtime.rs: the tests of runs that succeed, as functions into Bool.
use Prim.Native.String.{[], ◌∷◌}
use ipmaze.Base.{
  ℕ, ltb, ◌=ℕ◌, Bool, true, ◌≡◌, refl, ◌&&◌, ◌==◌, none, some, [], ◌∷◌, is_some, is_empty,
  string_eq, string_dec, option_eq, list_eq, not,
}
use ipmaze.Base.BTree.{map_get}
use ipmaze.Api.{managed_network_policy_name}
use ipmaze.Networking.{spec_eq, map_eq, NetworkPolicySpec-discrete, StringMap-discrete}
use ipmaze.Text.{
  trim, trim_start, trim_end, is_whitespace, split, last_char, split_whitespace, to_lowercase,
  decimal, decimal_onto,
}
use ipmaze.Source.{
  follow_pointer, captured_address, normalize_source_address, of_trimmed, of_bare, of_url, with_url,
}
use ipmaze.Source.Hostname.{is_valid_hostname, is_valid_hostname_label, is_ascii_alphanumeric}
use ipmaze.Source.Resolve.{
  resolve_final_source, resolve_pointer, fetch_text, fetch_json, parse_json_bytes,
}
use ipmaze.Status.{
  status_source, patch_status_for_outcome, status_for_outcome, succeeded, stage_as_str,
  stage_message,
}
use ipmaze.Validation.{
  require_values, check_operator, validate_selector_requirement, validate_requirements,
  validate_selector, validate_optional, validate_directions, validate_rule, validate_rules,
  validate_pointer_regex, validate_resync_schedule, validate_spec, validate_policy,
}
use ipmaze.NetPol.Selector.{
  with_values, render_operator, render_requirement, render_requirements, render_selector,
  render_subject_selector,
}
use ipmaze.NetPol.Rules.{
  effective_directions, render_peer_selector, cidr_peer, selector_peers, build_peers,
  build_ingress_rules, build_egress_rules, collect_policy_types, build_policy_types,
}
use ipmaze.Extract.{
  compile_query, query_values, extract_cidrs, collect_cidrs, parse_cidr, of_ipnet, sort,
  insert_sorted, compare_cidr,
}
use ipmaze.NetPol.{build_managed_network_policy, managed_metadata, is_managed_network_policy_for}
use ipmaze.Controller.Managed.{
  apply_managed_network_policy, publish_policy_event, get_managed_network_policy, check_owned,
  report_managed_policy_collision, delete_managed_network_policy, deletion_result,
}
use ipmaze.Controller.Requeue.{schedule_requeue_after, next_resync_after}
use ipmaze.Controller.Errors.{stage, error_text}
use ipmaze.Controller.{
  render_payload, apply_outcome, publish_outcome_event, classify_outcome, managed_policy_matches,
  prepare, settle, cleanup, cleanup_note, reconcile, handle_reconcile_failure,
}
use ipmaze.Tests.Crates.{test_libs, one_minute}
use ipmaze.Tests.Runtime.{compare_key, rendered_ipblocks, event_reasons}
use ipmaze.Tests.Unit.{unwrap_and}
use ipmaze.Tests.Runtime.Samples.{
  policy, managed_key, json_server, fake, reconciled_from, after_success, managed_and, status_and,
  is_requeue, built_with, pointing, pointer_server, terminating, holding,
}

abbrev reconcile_creates_policy_updates_status_and_emits_event : Bool
reconcile_creates_policy_updates_status_and_emits_event =
    after_success
      (reconciled_from policy (record { remote = json_server b'a'; kube = fake policy [] }))
      (λ action s.
        managed_and s.kube (λ managed. rendered_ipblocks managed == "10.0.0.0/24" ∷ [])
        && s.kube.netpol_patch_count =ℕ 1
        && status_and s.kube (λ status.
          status.last_observed_cidrs == "10.0.0.0/24" ∷ []
          && is_some status.last_successful_resolution_time
          && status.last_reconciliation_error == none)
        && event_reasons s.kube == "Reconciled" ∷ []
        && is_requeue action)

abbrev reconcile_resolves_pointer_source_and_updates_policy : Bool
reconcile_resolves_pointer_source_and_updates_policy =
    after_success
      (reconciled_from pointing (record { remote = pointer_server b'c'; kube = fake pointing [] }))
      (λ _ s. managed_and s.kube (λ managed. rendered_ipblocks managed == "203.0.113.0/24" ∷ []))

-- 12:34:30, in nanoseconds since midnight.
abbrev half_past : ℕ
half_past = 45270000000000

abbrev custom_resync_schedule_controls_requeue_timing : Bool
custom_resync_schedule_controls_requeue_timing =
    unwrap_and (validate_resync_schedule test_libs (some "* * * * *")) (λ schedule.
      unwrap_and (next_resync_after test_libs schedule half_past)
        (λ requeue_after. ltb 0 requeue_after && ltb requeue_after one_minute))

abbrev reconcile_updates_existing_managed_policy : Bool
reconcile_updates_existing_managed_policy = built_with policy "10.0.0.0/24" (λ old_policy.
    after_success
      (reconciled_from policy (record (holding policy old_policy) { remote = json_server b'b' }))
      (λ _ s.
        managed_and s.kube (λ managed. rendered_ipblocks managed == "192.0.2.0/24" ∷ [])
        && s.kube.netpol_patch_count =ℕ 1))

abbrev reconcile_deletes_managed_policy_when_resource_is_terminating : Bool
reconcile_deletes_managed_policy_when_resource_is_terminating =
    built_with terminating "10.0.0.0/24" (λ managed_policy.
      after_success (reconciled_from terminating (holding terminating managed_policy)) (λ _ s.
        not (is_some (map_get compare_key managed_key s.kube.network_policies))
        && s.kube.netpol_delete_count =ℕ 1
        && event_reasons s.kube == "CleanupManagedPolicy" ∷ []))

abbrev no_change_reconcile_avoids_network_policy_write : Bool
no_change_reconcile_avoids_network_policy_write = built_with policy "10.0.0.0/24" (λ managed_policy.
    after_success (reconciled_from policy (holding policy managed_policy)) (λ _ s.
      s.kube.netpol_patch_count =ℕ 0 && s.kube.status_patch_count =ℕ 1 && is_empty s.kube.events))

pub successful_runs_pass :
    reconcile_creates_policy_updates_status_and_emits_event
      && reconcile_resolves_pointer_source_and_updates_policy
      && custom_resync_schedule_controls_requeue_timing && reconcile_updates_existing_managed_policy
      && reconcile_deletes_managed_policy_when_resource_is_terminating
      && no_change_reconcile_avoids_network_policy_write
    ≡ true
unfolding reconcile prepare settle cleanup cleanup_note render_payload extract_cidrs query_values
    collect_cidrs parse_cidr of_ipnet sort insert_sorted compare_cidr classify_outcome
    managed_policy_matches apply_outcome apply_managed_network_policy patch_status_for_outcome
    status_source status_for_outcome succeeded publish_outcome_event publish_policy_event
    get_managed_network_policy check_owned report_managed_policy_collision
    is_managed_network_policy_for delete_managed_network_policy deletion_result
    schedule_requeue_after next_resync_after fetch_json parse_json_bytes follow_pointer
    captured_address build_managed_network_policy managed_metadata managed_network_policy_name
    render_subject_selector render_selector render_requirements render_requirement render_operator
    with_values build_ingress_rules build_egress_rules build_peers selector_peers
    render_peer_selector cidr_peer effective_directions build_policy_types collect_policy_types
    validate_policy validate_spec validate_rules validate_rule validate_optional validate_directions
    validate_selector validate_requirements validate_selector_requirement check_operator
    require_values validate_pointer_regex validate_resync_schedule compile_query
    normalize_source_address of_trimmed of_url of_bare with_url resolve_final_source resolve_pointer
    fetch_text string_eq string_dec trim trim_start trim_end is_whitespace split split_whitespace
    last_char is_valid_hostname is_valid_hostname_label is_ascii_alphanumeric stage stage_as_str
    stage_message error_text handle_reconcile_failure NetworkPolicySpec-discrete StringMap-discrete
    spec_eq map_eq list_eq option_eq decimal decimal_onto to_lowercase
successful_runs_pass = refl
