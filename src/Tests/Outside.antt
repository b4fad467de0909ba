-- ===== src/Tests/Outside.antt =====
-- An outside for the tests: one web page, a store of NetworkPolicies, one CIDRPolicy, and a clock.
use ipmaze.Base.{
  ℕ, String, Bool, ◌&&◌, Option, none, some, List, [], ◌∷◌, ok, err, unwrap_or, string_eq, ◌==◌,
  if◌then◌else◌,
}
use ipmaze.Base.Action.{Action}
use ipmaze.Api.{CidrPolicy, CidrPolicyStatus}
use ipmaze.Networking.{NetworkPolicy}
use ipmaze.World.{World, Event}
use ipmaze.Tests.Crates.{TestUrl, test_libs}

pub record Stored : Type 0 where
  pub namespace : String
  pub name : String
  pub object : NetworkPolicy String

pub record TestState : Type 0 where
  pub page : Option String
  pub policies : List Stored
  pub source : Option (CidrPolicy String)
  pub clock : ℕ
  pub requests : List String
  pub events : List String

abbrev at : String → String → Stored → Bool
at ns name stored = stored.namespace == ns && stored.name == name

abbrev pub find : String → String → List Stored → Option (NetworkPolicy String)
find ns name [] = none
find ns name (p ∷ ps) = if at ns name p then some p.object else find ns name ps

abbrev pub remove : String → String → List Stored → List Stored
remove ns name [] = []
remove ns name (p ∷ ps) = let rest = remove ns name ps in if at ns name p then rest else p ∷ rest

abbrev pub send_request : TestUrl → Action TestState String String
send_request u s = elim s.page [
  | none ↦ (err "timeout", s)
  | some body ↦ (ok body, record s { requests = u.text ∷ s.requests })
]

abbrev pub find_source : String → String → Action TestState (CidrPolicy String) ℕ
find_source ns name s = elim s.source [ none ↦ (err 404, s) | some p ↦ (ok p, s) ]

abbrev pub set_status : CidrPolicyStatus → Action TestState (Unit {0}) ℕ
set_status status s = elim s.source [
  | none ↦ (err 404, s)
  | some p ↦ (ok tt, record s { source = some (record p { status = some status }) })
]

abbrev pub apply_policy : String → String → NetworkPolicy String → Action TestState (Unit {0}) ℕ
apply_policy ns name np s = (
  ok tt,
  record s {
    policies = record { namespace = ns; name = name; object = np } ∷ remove ns name s.policies;
  },
)

abbrev pub delete_policy : String → String → Action TestState (Unit {0}) ℕ
delete_policy ns name s = elim (find ns name s.policies) [
  | none ↦ (err 404, s)
  | some _ ↦ (ok tt, record s { policies = remove ns name s.policies })
]

abbrev publish_event : Event String → Action TestState (Unit {0}) ℕ
publish_event e s = (ok tt, record s { events = e.reason ∷ s.events })

abbrev pub test_world : World test_libs
test_world = record {
  State = TestState;
  Response = String;
  send = send_request;
  error_for_status = λ body. if body == "404" then err "status 404" else ok body;
  text = λ body s. (ok body, s);
  bytes = λ body s. (ok (1 ∷ []), s);
  now = λ s. s.clock;
  ObjectReference = String;
  name_any = λ p. unwrap_or p.metadata.name "";
  namespace = λ p. p.metadata.namespace;
  controller_owner_ref = λ p. p.metadata.uid;
  object_ref = λ p. unwrap_or p.metadata.name "";
  network_policy_ref = λ p. unwrap_or p.metadata.name "";
  KubeError = ℕ;
  api_code = λ e. some e;
  kube_error_text = λ e. "api error";
  get_opt_network_policy = λ ns name s. (ok (find ns name s.policies), s);
  apply_network_policy = λ ns name manager np. apply_policy ns name np;
  delete_network_policy = delete_policy;
  get_cidr_policy = find_source;
  patch_cidr_policy_status = λ ns name manager status. set_status status;
  publish = λ e r. publish_event e;
}
