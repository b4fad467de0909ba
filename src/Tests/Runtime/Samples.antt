-- ===== src/Tests/Runtime/Samples.antt =====
-- tests/controller_runtime.rs: the policies, the mock servers, the state before a test, and how its
-- outcome is looked at.
use Prim.Native.String.{[], ◌∷◌}
use ipmaze.Base.{
  ℕ, String, Bool, true, false, ◌==◌, none, some, List, [], ◌∷◌, Result, ok, err, is_some_and,
  and_then, string_eq, option_eq, list_eq,
}
use ipmaze.Base.BTree.{map_get}
use ipmaze.Api.{CidrPolicy, CidrPolicyStatus, LabelSelector, ingress, managed_network_policy_name}
use ipmaze.Networking.{NetworkPolicy, spec_eq, map_eq}
use ipmaze.Status.{ReconcileStage, stage_as_str}
use ipmaze.Extract.{v4}
use ipmaze.NetPol.{build_managed_network_policy}
use ipmaze.Controller.Errors.{ReconcileError, stage}
use ipmaze.Controller.{reconcile, Next, requeue, await_change}
use ipmaze.Tests.Crates.{test_libs}
use ipmaze.Tests.Runtime.{Key, compare_key, FakeKubeState, ResponseTemplate, Outside, runtime_world}
use ipmaze.Tests.Unit.{unwrap_and}

abbrev pub labelled : String → String → LabelSelector
labelled key value = record { match_labels = some ((key, value) ∷ []); match_expressions = none }

abbrev pub sample_policy : String → CidrPolicy String
sample_policy address = record {
  metadata = record {
    name = some "office-allowlist";
    namespace = some "payments";
    uid = some "12345";
    deletion_timestamp = none;
    labels = none;
    annotations = none;
    owner_references = none;
  };
  spec = record {
    source = record { address = address; pointer = none; jmes_path = "prefixes" };
    resync_schedule = none;
    target = record { pod_selector = labelled "app" "api" };
    rules =
        record {
          directions = some (ingress ∷ []);
          pod_selector = some (labelled "access-tier" "trusted");
          namespace_selector = none;
        }
        ∷ [];
  };
  status = none;
}

abbrev pub list_url : String
list_url = "http://server/allowlist.json"

abbrev pub pointer_url : String
pointer_url = "http://server/pointer.txt"

abbrev pub policy : CidrPolicy String
policy = sample_policy list_url

abbrev pub policy_key : Key
policy_key = ("payments", "office-allowlist")

abbrev pub managed_key : Key
managed_key = ("payments", managed_network_policy_name policy)

-- The first bytes of the answers for three lists of one CIDR each.
abbrev pub json_of : ℕ → ResponseTemplate
json_of c = record { code = 200; body_string = ""; body_json = c ∷ [] }

abbrev pub json_server : ℕ → List (String × ResponseTemplate)
json_server c = (list_url, json_of c) ∷ []

-- The state before a test: the CIDRPolicy is stored, and these NetworkPolicies.
abbrev pub fake : CidrPolicy String → List (Key × NetworkPolicy String) → FakeKubeState
fake p network_policies = record {
  policies = (policy_key, p) ∷ [];
  network_policies = network_policies;
  events = [];
  netpol_patch_count = 0;
  netpol_delete_count = 0;
  status_patch_count = 0;
}

abbrev pub Ran : Type 0 → Type 0
Ran A = Result A (ReconcileError test_libs runtime_world) × Outside

abbrev pub reconciled_from : CidrPolicy String → Outside → Ran Next
reconciled_from = reconcile test_libs runtime_world

-- `unwrap`, `unwrap_err`, and what is tested after it.
abbrev pub after_success : Ran Next → (Next → Outside → Bool) → Bool
after_success (ok next, s) check = check next s
after_success (err e, s) check = false

abbrev pub after_error : Ran Next → (ReconcileError test_libs runtime_world → Outside → Bool) → Bool
after_error (ok next, s) check = false
after_error (err e, s) check = check e s

abbrev pub has_stage : ReconcileError test_libs runtime_world → ReconcileStage → Bool
has_stage error expected = stage_as_str (stage error) == stage_as_str expected

abbrev pub managed_and : FakeKubeState → (NetworkPolicy String → Bool) → Bool
managed_and kube = is_some_and (map_get compare_key managed_key kube.network_policies)

abbrev pub status_and : FakeKubeState → (CidrPolicyStatus → Bool) → Bool
status_and kube =
    is_some_and (and_then (map_get compare_key policy_key kube.policies) (λ p. p.status))

abbrev pub is_requeue : Next → Bool
is_requeue await_change = false
is_requeue (requeue delay) = true

abbrev pub built_with : CidrPolicy String → String → (NetworkPolicy String → Bool) → Bool
built_with p cidr = unwrap_and (
    build_managed_network_policy test_libs runtime_world p
      (record { rendered = cidr; family = v4 } ∷ []))

-- A policy whose source is a pointer.
abbrev pub pointing : CidrPolicy String
pointing = record (sample_policy pointer_url) {
  spec = record (sample_policy pointer_url).spec {
    source = record (sample_policy pointer_url).spec.source {
      pointer = some (record { regex = "endpoint=(https?://\\S+)" });
    };
  };
}

abbrev pub pointer_page : String → String × ResponseTemplate
pointer_page body = (pointer_url, record { code = 200; body_string = body; body_json = [] })

abbrev pub pointer_server : ℕ → List (String × ResponseTemplate)
pointer_server c = (list_url, json_of c) ∷ pointer_page "endpoint=http://server/allowlist.json" ∷ []

abbrev pub terminating : CidrPolicy String
terminating = record policy {
  metadata = record policy.metadata { deletion_timestamp = some "2026-05-22T12:34:30Z" };
}

abbrev pub holding : CidrPolicy String → NetworkPolicy String → Outside
holding p network_policy = record {
  remote = json_server b'a';
  kube = fake p ((managed_key, network_policy) ∷ []);
}
