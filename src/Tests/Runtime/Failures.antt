-- ===== src/Tests/Runtime/Failures.antt =====
-- tests/controller_runtime.rs: the tests of runs that fail, as functions into Bool.
use Prim.Native.String.{[], ◌∷◌}
use ipmaze.Base.{
  ◌||◌, code, ℕ, ◌=ℕ◌, String, Bool, true, false, ◌≡◌, refl, ◌&&◌, ◌==◌, none, some, List, [], ◌∷◌,
  Result, ok, err, is_some, is_some_and, string_eq, string_dec, option_eq, list_eq,
}
use ipmaze.Api.{CidrPolicy, managed_network_policy_name}
use ipmaze.Networking.{
  NetworkPolicy, spec_eq, map_eq, NetworkPolicySpec-discrete, StringMap-discrete,
}
use ipmaze.Text.{
  trim, trim_start, trim_end, is_whitespace, split, last_char, split_whitespace, to_lowercase,
  decimal, decimal_onto,
}
use ipmaze.Source.{
  follow_pointer, captured_address, normalize_source_address, of_trimmed, of_bare, of_url, with_url,
}
use ipmaze.Source.Hostname.{is_valid_hostname, is_valid_hostname_label, is_ascii_alphanumeric}
use ipmaze.Source.Resolve.{
  resolve_final_source, resolve_pointer, fetch_text, fetch_json, parse_json_bytes,
}
use ipmaze.Status.{
  status_source, patch_status_for_outcome, status_for_outcome, succeeded, ReconcileStage,
  stage_as_str, stage_message,
}
use ipmaze.Validation.{
  require_values, check_operator, validate_selector_requirement, validate_requirements,
  validate_selector, validate_optional, validate_directions, validate_rule, validate_rules,
  validate_pointer_regex, validate_resync_schedule, validate_spec, validate_policy,
}
use ipmaze.NetPol.Selector.{
  with_values, render_operator, render_requirement, render_requirements, render_selector,
  render_subject_selector,
}
use ipmaze.NetPol.Rules.{
  effective_directions, render_peer_selector, cidr_peer, selector_peers, build_peers,
  build_ingress_rules, build_egress_rules, collect_policy_types, build_policy_types,
}
use ipmaze.Extract.{
  compile_query, query_values, extract_cidrs, collect_cidrs, parse_cidr, of_ipnet, sort,
  insert_sorted, compare_cidr,
}
use ipmaze.NetPol.{build_managed_network_policy, managed_metadata, is_managed_network_policy_for}
use ipmaze.Controller.Managed.{
  apply_managed_network_policy, publish_policy_event, get_managed_network_policy, check_owned,
  report_managed_policy_collision, delete_managed_network_policy, deletion_result,
}
use ipmaze.Controller.Requeue.{schedule_requeue_after, next_resync_after}
use ipmaze.Controller.Errors.{stage, error_text, fetch_text as fetch_failure_text}
use ipmaze.Controller.{
  render_payload, apply_outcome, publish_outcome_event, classify_outcome, managed_policy_matches,
  prepare, settle, cleanup, cleanup_note, reconcile, handle_reconcile_failure,
}
use ipmaze.Tests.Crates.{test_libs}
use ipmaze.Tests.Runtime.{FakeKubeState, ResponseTemplate, Outside, runtime_world, event_reasons}
use ipmaze.Tests.Runtime.Samples.{
  list_url, policy, json_server, fake, reconciled_from, after_success, after_error, has_stage,
  managed_and, status_and, built_with, pointing, pointer_page, pointer_server, terminating, holding,
}

-- `str::contains`
abbrev starts_with : String → String → Bool
starts_with [] s = true
starts_with (c ∷ p) [] = false
starts_with (c ∷ p) (d ∷ s) = code c =ℕ code d && starts_with p s

abbrev contains : String → String → Bool
contains p [] = starts_with p []
contains p (d ∷ s) = starts_with p (d ∷ s) || contains p s

abbrev after_handling : Result (Unit {0}) ℕ × Outside → (FakeKubeState → Bool) → Bool
after_handling (ok _, s) check = check s.kube
after_handling (err _, s) check = false

-- A success, then a failure with other answers, which is handled; what is tested of the NetworkPolicy
-- before the failure and of the state after it.
abbrev failing_after :
    CidrPolicy String
    → List (String × ResponseTemplate)
    → List (String × ResponseTemplate)
    → (NetworkPolicy String → FakeKubeState → Bool)
    → Bool
failing_after p answers others check =
    after_success (reconciled_from p (record { remote = answers; kube = fake p [] })) (λ _ s.
      managed_and s.kube (λ before_failure.
        after_error (reconciled_from p (record s { remote = others })) (λ error s₁.
          after_handling
            (handle_reconcile_failure test_libs runtime_world p (stage error) (error_text error) s₁)
            (check before_failure))))

abbrev error_contains : String → FakeKubeState → Bool
error_contains part kube =
    status_and kube (λ status. is_some_and status.last_reconciliation_error (contains part))

abbrev same_spec : NetworkPolicy String → FakeKubeState → Bool
same_spec before kube = managed_and kube (λ after. after.spec == before.spec)

abbrev pointer_extraction_failure_preserves_last_good_policy_and_records_stage : Bool
pointer_extraction_failure_preserves_last_good_policy_and_records_stage =
    failing_after pointing (pointer_server b'a') (pointer_page "no endpoint here" ∷ [])
      (λ before_failure kube.
        same_spec before_failure kube && error_contains "pointer-extraction:" kube)

abbrev failed_reconcile_preserves_last_good_policy_and_records_warning : Bool
failed_reconcile_preserves_last_good_policy_and_records_warning =
    failing_after policy (json_server b'a')
      ((list_url, record { code = 500; body_string = ""; body_json = [] }) ∷ [])
      (λ before_failure kube.
        same_spec before_failure kube
        && status_and kube (λ status.
          status.last_observed_cidrs == "10.0.0.0/24" ∷ []
          && is_some status.last_successful_resolution_time)
        && error_contains "transport:" kube
        && event_reasons kube == "ReconcileFailed" ∷ "Reconciled" ∷ [])

abbrev refuses_collision : CidrPolicy String → NetworkPolicy String → (FakeKubeState → Bool) → Bool
refuses_collision p foreign_policy check =
    after_error (reconciled_from p (holding p foreign_policy)) (λ error s.
      has_stage error ReconcileStage.managed_policy_collision
      && check s.kube
      && s.kube.netpol_delete_count =ℕ 0
      && event_reasons s.kube == "ManagedPolicyCollision" ∷ [])

abbrev reconcile_fails_on_foreign_network_policy_name_collision : Bool
reconcile_fails_on_foreign_network_policy_name_collision =
    built_with policy "192.0.2.0/24" (λ built.
      refuses_collision policy
        (record built {
          metadata = record built.metadata { owner_references = none; annotations = some [] };
        })
        (λ kube. kube.netpol_patch_count =ℕ 0))

abbrev cleanup_fails_on_foreign_network_policy_name_collision : Bool
cleanup_fails_on_foreign_network_policy_name_collision =
    built_with terminating "192.0.2.0/24" (λ built.
      refuses_collision terminating
        (record built { metadata = record built.metadata { labels = some [] } }) (λ kube. true))

pub failed_runs_pass :
    pointer_extraction_failure_preserves_last_good_policy_and_records_stage
      && failed_reconcile_preserves_last_good_policy_and_records_warning
      && reconcile_fails_on_foreign_network_policy_name_collision
      && cleanup_fails_on_foreign_network_policy_name_collision
    ≡ true
unfolding reconcile prepare settle cleanup cleanup_note render_payload extract_cidrs query_values
    collect_cidrs parse_cidr of_ipnet sort insert_sorted compare_cidr classify_outcome
    managed_policy_matches apply_outcome apply_managed_network_policy patch_status_for_outcome
    status_source status_for_outcome succeeded publish_outcome_event publish_policy_event
    get_managed_network_policy check_owned report_managed_policy_collision
    is_managed_network_policy_for delete_managed_network_policy deletion_result
    schedule_requeue_after next_resync_after fetch_json parse_json_bytes follow_pointer
    captured_address build_managed_network_policy managed_metadata managed_network_policy_name
    render_subject_selector render_selector render_requirements render_requirement render_operator
    with_values build_ingress_rules build_egress_rules build_peers selector_peers
    render_peer_selector cidr_peer effective_directions build_policy_types collect_policy_types
    validate_policy validate_spec validate_rules validate_rule validate_optional validate_directions
    validate_selector validate_requirements validate_selector_requirement check_operator
    require_values validate_pointer_regex validate_resync_schedule compile_query
    normalize_source_address of_trimmed of_url of_bare with_url resolve_final_source resolve_pointer
    fetch_text string_eq string_dec trim trim_start trim_end is_whitespace split split_whitespace
    last_char is_valid_hostname is_valid_hostname_label is_ascii_alphanumeric stage stage_as_str
    stage_message error_text handle_reconcile_failure NetworkPolicySpec-discrete StringMap-discrete
    spec_eq map_eq list_eq option_eq decimal decimal_onto to_lowercase fetch_failure_text
failed_runs_pass = refl
