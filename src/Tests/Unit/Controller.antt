-- ===== src/Tests/Unit/Controller.antt =====
-- controller.rs, `mod tests`.
use ipmaze.Base.{
  ℕ, ltb, String, Bool, true, false, ◌≡◌, refl, ◌&&◌, ◌==◌, none, some, List, [], ◌∷◌, Result,
  string_eq, string_dec, option_eq, list_eq,
}
use ipmaze.Api.{CidrPolicy, ingress, managed_network_policy_name}
use ipmaze.Networking.{
  NetworkPolicy, spec_eq, map_eq, NetworkPolicySpec-discrete, StringMap-discrete,
}
use ipmaze.Extract.{v4, result_not_array}
use ipmaze.Source.{pointer_extraction_no_match}
use ipmaze.Status.{ReconcileStage, ReconcileOutcome, reconciled, no_change, failed, stage_as_str}
use ipmaze.NetPol.{build_managed_network_policy, managed_metadata}
use ipmaze.NetPol.Selector.{
  RenderError, with_values, render_operator, render_requirement, render_requirements,
  render_selector, render_subject_selector,
}
use ipmaze.NetPol.Rules.{
  effective_directions, render_peer_selector, cidr_peer, selector_peers, build_peers,
  build_ingress_rules, build_egress_rules, collect_policy_types, build_policy_types,
}
use ipmaze.Controller.{classify_outcome, managed_policy_matches}
use ipmaze.Controller.Errors.{
  stage, extract_error, fetch_error, managed_policy_collision_error, ReconcileError,
}
use ipmaze.Text.{trim, trim_start, trim_end, is_whitespace, split, split_whitespace}
use ipmaze.Controller.Requeue.{next_resync_after}
use ipmaze.Validation.{validate_resync_schedule}
use ipmaze.Tests.Crates.{test_libs, one_minute}
use ipmaze.Tests.Outside.{test_world}
use ipmaze.Tests.Unit.{unwrap_and}
use ipmaze.Tests.Unit.Status.{default_selector}

abbrev sample_policy : CidrPolicy String
sample_policy = record {
  metadata = record {
    name = some "office-allowlist";
    namespace = some "payments";
    uid = some "12345";
    deletion_timestamp = none;
    labels = none;
    annotations = none;
    owner_references = none;
  };
  spec = record {
    source = record { address = "example.invalid"; pointer = none; jmes_path = "prefixes" };
    resync_schedule = none;
    target = record { pod_selector = default_selector };
    rules =
        record {
          directions = some (ingress ∷ []);
          pod_selector = some default_selector;
          namespace_selector = none;
        }
        ∷ [];
  };
  status = none;
}

abbrev sample_rendered_policy : String → Result (NetworkPolicy String) RenderError
sample_rendered_policy cidr =
    build_managed_network_policy test_libs test_world sample_policy
      (record { rendered = cidr; family = v4 } ∷ [])

-- The outcomes that the tests name.
abbrev is_no_change_of : List String → ReconcileOutcome → Bool
is_no_change_of cidrs (no_change observed) = observed == cidrs
is_no_change_of cidrs (reconciled observed) = false
is_no_change_of cidrs (failed stage message) = false

abbrev is_reconciled_of : List String → ReconcileOutcome → Bool
is_reconciled_of cidrs (reconciled observed) = observed == cidrs
is_reconciled_of cidrs (no_change observed) = false
is_reconciled_of cidrs (failed stage message) = false

abbrev classify_outcome_detects_no_change : Bool
classify_outcome_detects_no_change = unwrap_and (sample_rendered_policy "10.0.0.0/24") (λ desired.
    is_no_change_of ("10.0.0.0/24" ∷ [])
      (classify_outcome test_libs test_world (some desired) desired ("10.0.0.0/24" ∷ [])))

abbrev classify_outcome_detects_material_spec_change : Bool
classify_outcome_detects_material_spec_change =
    unwrap_and (sample_rendered_policy "10.0.0.0/24") (λ current.
      unwrap_and (sample_rendered_policy "192.0.2.0/24") (λ desired.
        is_reconciled_of ("192.0.2.0/24" ∷ [])
          (classify_outcome test_libs test_world (some current) desired ("192.0.2.0/24" ∷ []))))

-- The stages are told apart by their texts.
abbrev has_stage : ReconcileError test_libs test_world → ReconcileStage → Bool
has_stage error expected = stage_as_str (stage error) == stage_as_str expected

abbrev reconcile_error_maps_result_shape_failures : Bool
reconcile_error_maps_result_shape_failures =
    has_stage (extract_error result_not_array) ReconcileStage.result_shape

abbrev reconcile_error_maps_pointer_extraction_failures : Bool
reconcile_error_maps_pointer_extraction_failures =
    has_stage (fetch_error pointer_extraction_no_match) ReconcileStage.pointer_extraction

abbrev reconcile_error_maps_managed_policy_collisions : Bool
reconcile_error_maps_managed_policy_collisions =
    has_stage (managed_policy_collision_error "office-allowlist-managed")
      ReconcileStage.managed_policy_collision

-- 12:34:30, in nanoseconds since midnight, and the next whole minute.
abbrev half_past : ℕ
half_past = 45270000000000

abbrev next_resync_after_returns_non_zero_delay_for_minutely_schedule : Bool
next_resync_after_returns_non_zero_delay_for_minutely_schedule =
    unwrap_and (validate_resync_schedule test_libs (some "* * * * *")) (λ schedule.
      unwrap_and (next_resync_after test_libs schedule half_past)
        (λ delay. ltb 0 delay && ltb delay one_minute))

pub controller_tests_pass :
    classify_outcome_detects_no_change && classify_outcome_detects_material_spec_change
      && reconcile_error_maps_result_shape_failures
      && reconcile_error_maps_pointer_extraction_failures
      && reconcile_error_maps_managed_policy_collisions
      && next_resync_after_returns_non_zero_delay_for_minutely_schedule
    ≡ true
unfolding validate_resync_schedule next_resync_after trim trim_start trim_end is_whitespace split
    split_whitespace build_managed_network_policy managed_metadata managed_network_policy_name
    render_subject_selector render_selector render_requirements render_requirement render_operator
    with_values build_ingress_rules build_egress_rules build_peers selector_peers
    render_peer_selector cidr_peer effective_directions build_policy_types collect_policy_types
    classify_outcome managed_policy_matches stage stage_as_str NetworkPolicySpec-discrete
    StringMap-discrete spec_eq map_eq string_eq string_dec list_eq option_eq
controller_tests_pass = refl
