-- ===== src/Tests/Interleaved.antt =====
-- controller.rs: the time passes and objects appear after each call of the controller.
use ipmaze.Base.{
  ℕ, ◌+◌, String, string_eq, string_dec, option_eq, list_eq, ◌≡◌, refl, ap, sym, ◌∙◌, inr, some, [],
  ◌∷◌, ok,
}
use ipmaze.Api.{managed_network_policy_name}
use ipmaze.World.{World}
use ipmaze.Source.{pointer_retrieval}
use ipmaze.NetPol.{is_managed_network_policy_for}
use ipmaze.Controller.{error_policy}
use ipmaze.Controller.Errors.{ReconcileError, fetch_error}
use ipmaze.Controller.Interleaved.{interleaved, Run-interleaved}
use ipmaze.Controller.Runs.{reconciles, reports, others, stop, step}
use ipmaze.Text.{trim, trim_start, trim_end, is_whitespace, split, last_char, split_whitespace}
use ipmaze.Networking.{spec_eq, map_eq}
use ipmaze.Source.{
  follow_pointer, captured_address, normalize_source_address, of_trimmed, of_bare, with_url,
}
use ipmaze.Source.Hostname.{is_valid_hostname, is_valid_hostname_label, is_ascii_alphanumeric}
use ipmaze.Source.Resolve.{
  resolve_final_source, resolve_pointer, fetch_text, fetch_json, parse_json_bytes,
}
use ipmaze.Status.{status_source, patch_status_for_outcome, status_for_outcome, succeeded}
use ipmaze.Validation.{
  require_values, check_operator, validate_selector_requirement, validate_requirements,
  validate_selector, validate_optional, validate_directions, validate_rule, validate_rules,
  validate_pointer_regex, validate_resync_schedule, validate_spec, validate_policy,
}
use ipmaze.NetPol.Selector.{
  with_values, render_operator, render_requirement, render_requirements, render_selector,
  render_subject_selector,
}
use ipmaze.NetPol.Rules.{
  effective_directions, render_peer_selector, cidr_peer, selector_peers, build_peers,
  build_ingress_rules, build_egress_rules, collect_policy_types, build_policy_types,
}
use ipmaze.Extract.{
  compile_query, query_values, extract_cidrs, collect_cidrs, parse_cidr, of_ipnet, sort,
  insert_sorted, compare_cidr,
}
use ipmaze.NetPol.{build_managed_network_policy, managed_metadata}
use ipmaze.Controller.Managed.{
  apply_managed_network_policy, publish_policy_event, get_managed_network_policy,
}
use ipmaze.Controller.Requeue.{schedule_requeue_after, next_resync_after}
use ipmaze.Controller.{
  render_payload, apply_outcome, publish_outcome_event, classify_outcome, prepare, settle,
  reconcile, requeue,
}
use mathlib.Core.Path.{subst}
use ipmaze.Controller.Enforcement.{IsEnforced}
use ipmaze.Controller.Interleaved.Enforced.{reconcile-interleaved}
use ipmaze.Tests.Reconciling.{start}
use ipmaze.Tests.Crates.{test_libs}
use ipmaze.Tests.Outside.{test_world, TestState, find}
use ipmaze.Tests.Policies.{policy, built}
use ipmaze.Tests.Cluster.{test_cluster, stranger, state_with}

abbrev pub meddle : ℕ → TestState → TestState
meddle k s = record s {
  clock = s.clock + k;
  policies = record { namespace = "default"; name = "noise"; object = built } ∷ s.policies;
}

abbrev pub busy : World test_libs
busy = interleaved test_libs test_world meddle

-- A reconciliation that meets somebody else's object, and the report of its failure.
abbrev first : TestState × ℕ
first = (
  state_with (some "example.com")
      (record { namespace = "default"; name = "partners-managed"; object = stranger } ∷ []),
  0,
)

abbrev second : TestState × ℕ
second = (reconcile test_libs busy policy first).1

abbrev timeout : ReconcileError test_libs busy
timeout = fetch_error (pointer_retrieval "timeout")

-- Others pass the time.
abbrev Passes : TestState × ℕ → TestState × ℕ → Type 0
Passes s t = s.0.policies ≡ t.0.policies

abbrev later : TestState × ℕ
later = (record second.0 { clock = 99 }, second.1)

abbrev last : TestState × ℕ
last = ((error_policy test_libs busy 5 policy timeout).1 later).1

Run-interleaved_example : find "default" "partners-managed" last.0.policies ≡ some stranger
unfolding is_managed_network_policy_for string_eq string_dec
Run-interleaved_example =
    Run-interleaved test_libs test_world test_cluster meddle Passes (policy ∷ policy ∷ []) first
      last "default" "partners-managed" stranger (λ k s there. there)
      (λ s t same there. ap (find "default" "partners-managed") (sym same) ∙ there)
      (step policy (policy ∷ []) first second last (reconciles policy first) (
        others (policy ∷ []) second later last refl
          (step policy [] later last last (reports 5 policy timeout later) (stop last))))
      refl (inr (inr refl), (inr (inr refl), tt))

-- The same on a cluster where the managed name is free.
abbrev pub empty : TestState × ℕ
empty = (start, 0)

pub reconciles_busy : (reconcile test_libs busy policy empty).0 ≡ ok (requeue 1)
unfolding reconcile prepare settle render_payload extract_cidrs query_values collect_cidrs
    parse_cidr of_ipnet sort insert_sorted compare_cidr classify_outcome apply_outcome
    apply_managed_network_policy patch_status_for_outcome status_source status_for_outcome succeeded
    publish_outcome_event publish_policy_event get_managed_network_policy schedule_requeue_after
    next_resync_after fetch_json parse_json_bytes follow_pointer captured_address
    build_managed_network_policy managed_metadata managed_network_policy_name
    render_subject_selector render_selector render_requirements render_requirement render_operator
    with_values build_ingress_rules build_egress_rules build_peers selector_peers
    render_peer_selector cidr_peer effective_directions build_policy_types collect_policy_types
    validate_policy validate_spec validate_rules validate_rule validate_optional validate_directions
    validate_selector validate_requirements validate_selector_requirement check_operator
    require_values validate_pointer_regex validate_resync_schedule compile_query
    normalize_source_address of_trimmed of_bare with_url resolve_final_source resolve_pointer
    fetch_text string_eq string_dec trim trim_start trim_end is_whitespace split split_whitespace
    last_char is_valid_hostname is_valid_hostname_label is_ascii_alphanumeric
reconciles_busy = refl

leaves_place :
    (n : String)
    → some "default" ≡ some n
    → (k : ℕ) (s : TestState)
    → find n "partners-managed" (meddle k s).policies ≡ find n "partners-managed" s.policies
unfolding string_eq string_dec
leaves_place n here k s =
    let same : "default" ≡ n = cc here in
    subst
      (λ x. find x "partners-managed" (meddle k s).policies ≡ find x "partners-managed" s.policies)
      same refl

reconcile-interleaved_example :
    IsEnforced test_libs busy
      (λ s. test_cluster.netpol_at s.0)
      policy
      empty
      ((reconcile test_libs busy policy empty).1)
unfolding managed_network_policy_name
reconcile-interleaved_example =
    reconcile-interleaved test_libs test_world test_cluster meddle policy empty (requeue 1) refl
      leaves_place reconciles_busy
