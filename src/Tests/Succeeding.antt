-- ===== src/Tests/Succeeding.antt =====
-- controller.rs: runs that are sure to succeed, as long as the CIDRPolicy is there.
use ipmaze.Base.{
  ℕ, ◌<◌, String, true, string_eq, string_dec, option_eq, list_eq, ◌≡◌, refl, none, [], ◌∷◌, ok,
  inl, inr, is_some, Option-cases, arith,
}
use ipmaze.Text.{trim, trim_start, trim_end, is_whitespace, split, last_char, split_whitespace}
use ipmaze.Api.{CidrPolicy, managed_network_policy_name}
use ipmaze.Networking.{spec_eq, map_eq}
use ipmaze.Source.{
  follow_pointer, captured_address, normalize_source_address, of_trimmed, of_bare, with_url,
}
use ipmaze.Source.Hostname.{is_valid_hostname, is_valid_hostname_label, is_ascii_alphanumeric}
use ipmaze.Source.Resolve.{
  resolve_final_source, resolve_pointer, fetch_text, fetch_json, parse_json_bytes,
}
use ipmaze.Status.{status_source, patch_status_for_outcome, status_for_outcome, succeeded}
use ipmaze.Validation.{
  require_values, check_operator, validate_selector_requirement, validate_requirements,
  validate_selector, validate_optional, validate_directions, validate_rule, validate_rules,
  validate_pointer_regex, validate_resync_schedule, validate_spec, validate_policy,
}
use ipmaze.NetPol.Selector.{
  with_values, render_operator, render_requirement, render_requirements, render_selector,
  render_subject_selector,
}
use ipmaze.NetPol.Rules.{
  effective_directions, render_peer_selector, cidr_peer, selector_peers, build_peers,
  build_ingress_rules, build_egress_rules, collect_policy_types, build_policy_types,
}
use ipmaze.Extract.{
  compile_query, query_values, extract_cidrs, collect_cidrs, parse_cidr, of_ipnet, sort,
  insert_sorted, compare_cidr,
}
use ipmaze.NetPol.{build_managed_network_policy, managed_metadata, is_managed_network_policy_for}
use ipmaze.Controller.Managed.{
  apply_managed_network_policy, publish_policy_event, get_managed_network_policy,
}
use ipmaze.Controller.Requeue.{schedule_requeue_after, next_resync_after}
use ipmaze.Controller.{
  render_payload, apply_outcome, publish_outcome_event, classify_outcome, prepare, settle,
  reconcile, requeue, await_change,
}
use ipmaze.Controller.Succeeds.{Grants, IsReady, reconcile_succeeds}
use ipmaze.Controller.Steady.{IsQuiet, Tolerates}
use ipmaze.Controller.Enforcement.{IsEnforced}
use ipmaze.Tests.Extraction.{ten, net}
use ipmaze.Tests.Addresses.{web_host}
use ipmaze.Controller.Removes.{GrantsDeletion, reconcile_removes}
use ipmaze.Tests.Starting.{test_world-Erases, leaving, crowded}
use ipmaze.Tests.Crates.{test_libs, list}
use ipmaze.Tests.Outside.{test_world, TestState, find}
use ipmaze.Tests.Policies.{validated, policy}
use ipmaze.Tests.Cluster.{test_cluster}
use ipmaze.Tests.Reconciling.{start}

-- The CIDRPolicy is stored, so that its status can be patched.
abbrev IsStored : TestState → Type 0
IsStored s = is_some s.source ≡ true

IsStored-Grants : Grants test_libs test_world IsStored
IsStored-Grants = record {
  reads = λ n m s up. (find n m s.policies, refl);
  applies = λ n m manager np s up. refl;
  patches = λ n m manager status s up. ground arith;
  publishes = λ e r s up. refl;
}

IsStored-IsQuiet : IsQuiet test_libs test_world IsStored
IsStored-IsQuiet = record {
  by_send = λ u s up. ground arith;
  by_text = λ r s up. up;
  by_bytes = λ r s up. up;
  by_read = λ n m s up. up;
  by_get = λ n m s up. ground arith;
  by_patch_status = λ n m manager status s up. ground arith;
  by_publish = λ e r s up. up;
}

IsStored-Tolerates : (p : CidrPolicy String) → Tolerates test_libs test_world IsStored p
IsStored-Tolerates p = record {
  quiet = IsStored-IsQuiet;
  by_apply = λ n manager np s₀ s found _ _ _ _ up. up;
  by_delete = λ n s₀ s found _ _ _ _ up. ground arith;
}

ready : IsReady test_libs test_world policy "default" start
unfolding reconcile prepare settle render_payload extract_cidrs query_values collect_cidrs
    parse_cidr of_ipnet sort insert_sorted compare_cidr classify_outcome apply_outcome
    apply_managed_network_policy patch_status_for_outcome status_source status_for_outcome succeeded
    publish_outcome_event publish_policy_event get_managed_network_policy schedule_requeue_after
    next_resync_after fetch_json parse_json_bytes follow_pointer captured_address
    build_managed_network_policy managed_metadata managed_network_policy_name
    render_subject_selector render_selector render_requirements render_requirement render_operator
    with_values build_ingress_rules build_egress_rules build_peers selector_peers
    render_peer_selector cidr_peer effective_directions build_policy_types collect_policy_types
    validate_policy validate_spec validate_rules validate_rule validate_optional validate_directions
    validate_selector validate_requirements validate_selector_requirement check_operator
    require_values validate_pointer_regex validate_resync_schedule compile_query
    normalize_source_address of_trimmed of_bare with_url resolve_final_source resolve_pointer
    fetch_text string_eq string_dec trim trim_start trim_end is_whitespace split split_whitespace
    last_char is_valid_hostname is_valid_hostname_label is_ascii_alphanumeric
ready = record {
  validated = validated;
  source = record {
    base_address = web_host;
    final_address = record web_host { original = "example.com" };
    pointer_used = true;
  };
  payload = list ("192.0.2.0/24" ∷ "10.0.0.0/8" ∷ []);
  query = "@";
  cidrs = ten ∷ net ∷ [];
  validates = refl;
  resolves = refl;
  fetches = refl;
  compiles = refl;
  extracts = refl;
  here = refl;
  due = λ now. (_, _, refl, refl);
}

reconcile_succeeds_example :
    (d : ℕ) × (0 < d)
    × ((reconcile test_libs test_world policy start).0 ≡ ok (requeue d))
    × IsEnforced test_libs test_world test_cluster.netpol_at policy start
        ((reconcile test_libs test_world policy start).1)
unfolding managed_network_policy_name string_eq string_dec
reconcile_succeeds_example =
    reconcile_succeeds test_libs test_world test_cluster IsStored IsStored-Grants policy "default"
      start refl ready tt (IsStored-Tolerates policy) refl

IsStored-GrantsDeletion : GrantsDeletion test_libs test_world IsStored
IsStored-GrantsDeletion n m s up = elim (Option-cases (find n m s.policies)) [
  | inl absent ↦ inr (404, ground arith, refl)
  | inr (np, found) ↦ inl (ground arith)
]

reconcile_removes_example :
    ((reconcile test_libs test_world leaving crowded).0 ≡ ok await_change)
    × (find "default" "partners-managed"
          ((reconcile test_libs test_world leaving crowded).1).policies
        ≡ none)
unfolding managed_network_policy_name is_managed_network_policy_for string_eq string_dec
reconcile_removes_example =
    reconcile_removes test_libs test_world test_cluster IsStored IsStored-Grants
      IsStored-GrantsDeletion leaving "default" crowded test_world-Erases refl refl refl
      (IsStored-Tolerates leaving) refl
