-- ===== src/Tests/Cluster.antt =====
-- The laws of a cluster, for the store of the tests, and states of it.
use ipmaze.Base.{
  String, string_eq, option_eq, list_eq, ◌≡◌, ◌≢◌, ◌⊎◌, refl, Option, none, some, List, [], ◌∷◌,
  arith, ==_iff,
}
use ipmaze.Networking.{NetworkPolicy, spec_eq, map_eq}
use ipmaze.Controller.Cluster.{Cluster}
use ipmaze.Tests.Crates.{test_libs}
use ipmaze.Tests.Outside.{test_world, TestState, Stored, find, remove}
use ipmaze.Tests.Policies.{policy}

pub find-remove :
    (n m ns name : String) (ps : List Stored)
    → (ns ≢ n) ⊎ (name ≢ m)
    → find ns name (remove n m ps) ≡ find ns name ps
find-remove n m ns name [] h = refl
find-remove n m ns name (p ∷ ps) h =
    let a = ==_iff p.namespace n in
    let b = ==_iff p.name m in
    let c = ==_iff p.namespace ns in
    let d = ==_iff p.name name in let rest = find-remove n m ns name ps h in grind arith

pub find-apply :
    (n m ns name : String) (np : NetworkPolicy String) (ps : List Stored)
    → (ns ≢ n) ⊎ (name ≢ m)
    → find ns name (record { namespace = n; name = m; object = np } ∷ remove n m ps)
      ≡ find ns name ps
find-apply n m ns name np ps h =
    let c = ==_iff n ns in
    let d = ==_iff m name in let rest = find-remove n m ns name ps h in grind arith

abbrev pub test_cluster : Cluster test_libs test_world
test_cluster = record {
  netpol_at = λ s ns name. find ns name s.policies;
  kept_by_send = λ u s ns name. ground arith;
  kept_by_text = λ r s ns name. refl;
  kept_by_bytes = λ r s ns name. refl;
  kept_by_read = λ n m s ns name. refl;
  read = λ n m s s' found h. ground arith;
  kept_by_get = λ n m s ns name. ground arith;
  kept_by_patch_status = λ n m manager status s ns name. ground arith;
  kept_by_publish = λ e r s ns name. refl;
  kept_by_apply = λ n m manager np s ns name h. find-apply n m ns name np s.policies h;
  applied = λ n m manager np s u h. let c = ==_iff n n in let d = ==_iff m m in ground arith;
  kept_by_delete =
      λ n m s ns name h. let rest = find-remove n m ns name s.policies h in ground arith;
}

abbrev pub stranger : NetworkPolicy String
stranger = record {
  metadata = record {
    name = some "partners-managed";
    namespace = some "default";
    uid = none;
    deletion_timestamp = none;
    labels = none;
    annotations = none;
    owner_references = none;
  };
  spec = none;
}

abbrev pub state_with : Option String → List Stored → TestState
state_with page policies = record {
  page = page;
  policies = policies;
  source = some policy;
  clock = 7;
  requests = [];
  events = [];
}
