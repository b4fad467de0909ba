-- ===== src/Tests/Runtime.antt =====
-- tests/controller_runtime.rs: the fake API server, which answers the client's requests out of a state
-- that it keeps, and the mock server of the source.
pub mod Samples
pub mod Reconciles
pub mod Failures
use Prim.Native.Nat.{Ordering}
use Prim.Native.String.{compare, then as then_by}
use ipmaze.Base.{
  ℕ, suc, String, Bool, false, Option, none, some, List, [], ◌∷◌, ◌++◌, Result, ok, err, and_then,
  unwrap_or, ltb, if◌then◌else◌,
}
use ipmaze.Base.Action.{Action}
use ipmaze.Base.BTree.{map_insert, map_get}
use ipmaze.Api.{CidrPolicy, CidrPolicyStatus}
use ipmaze.Networking.{NetworkPolicy, NetworkPolicyPeer, NetworkPolicyIngressRule}
use ipmaze.World.{World, Event}
use ipmaze.Tests.Crates.{TestUrl, test_libs}

-- A namespace and a name.
abbrev pub Key : Type 0
Key = String × String

abbrev pub compare_key : Key → Key → Ordering
compare_key a b = then_by (compare a.0 b.0) (compare a.1 b.1)

-- `BTreeMap::remove`
abbrev pub map_remove : {V : Type 0} → Key → List (Key × V) → List (Key × V)
map_remove a [] = []
map_remove a ((b, w) ∷ m) =
    let rest = map_remove a m in
    elim (compare_key a b) [
      | Ordering.lt ↦ (b, w) ∷ m
      | Ordering.eq ↦ m
      | Ordering.gt ↦ (b, w) ∷ rest
    ]

-- The events are kept by their reasons, the latest first.
pub record FakeKubeState : Type 0 where
  pub policies : List (Key × CidrPolicy String)
  pub network_policies : List (Key × NetworkPolicy String)
  pub events : List String
  pub netpol_patch_count : ℕ
  pub netpol_delete_count : ℕ
  pub status_patch_count : ℕ

-- What the mock server answers to a GET: a status and a body, as a text and as bytes.
pub record ResponseTemplate : Type 0 where
  pub code : ℕ
  pub body_string : String
  pub body_json : List ℕ

abbrev pub not_found : ResponseTemplate
not_found = record { code = 404; body_string = ""; body_json = [] }

-- The mocks, by URL, and the fake API server. An error of the latter is the code of its answer.
pub record Outside : Type 0 where
  pub remote : List (String × ResponseTemplate)
  pub kube : FakeKubeState

abbrev pub Handler : Type 0 → Type 0
Handler A = FakeKubeState → Result A ℕ × FakeKubeState

abbrev handle_get_network_policy : Key → Handler (Option (NetworkPolicy String))
handle_get_network_policy key state = (ok (map_get compare_key key state.network_policies), state)

abbrev handle_patch_network_policy : Key → NetworkPolicy String → Handler (Unit {0})
handle_patch_network_policy key network_policy state = (
  ok tt,
  record state {
    netpol_patch_count = suc state.netpol_patch_count;
    network_policies = map_insert compare_key key network_policy state.network_policies;
  },
)

abbrev handle_delete_network_policy : Key → Handler (Unit {0})
handle_delete_network_policy key state = (
  ok tt,
  record state {
    netpol_delete_count = suc state.netpol_delete_count;
    network_policies = map_remove key state.network_policies;
  },
)

abbrev handle_get_cidr_policy : Key → Handler (CidrPolicy String)
handle_get_cidr_policy key state = elim (map_get compare_key key state.policies) [
  | some policy ↦ (ok policy, state)
  | none ↦ (err 404, state)
]

-- The `unwrap` of an absent policy ends the request.
abbrev handle_patch_status : Key → CidrPolicyStatus → Handler (Unit {0})
handle_patch_status key status state = elim (map_get compare_key key state.policies) [
  | some policy ↦ (
    ok tt,
    record state {
      status_patch_count = suc state.status_patch_count;
      policies = map_insert compare_key key (record policy { status = some status }) state.policies;
    },
  )
  | none ↦ (err 500, record state { status_patch_count = suc state.status_patch_count })
]

abbrev handle_post_event : Event String → Handler (Unit {0})
handle_post_event event state = (ok tt, record state { events = event.reason ∷ state.events })

abbrev on_kube : {A : Type 0} → Handler A → Action Outside A ℕ
on_kube handler s = let (r, kube) = handler s.kube in (r, record s { kube = kube })

abbrev pub runtime_world : World test_libs
runtime_world = record {
  State = Outside;
  Response = ResponseTemplate;
  send = λ url s. (ok (unwrap_or (map_get compare url.text s.remote) not_found), s);
  error_for_status = λ response. if ltb response.code 400 then ok response else err "status";
  text = λ response s. (ok response.body_string, s);
  bytes = λ response s. (ok response.body_json, s);
  now = λ s. 45270000000000;
  ObjectReference = String;
  name_any = λ p. unwrap_or p.metadata.name "";
  namespace = λ p. p.metadata.namespace;
  controller_owner_ref = λ p. p.metadata.uid;
  object_ref = λ p. unwrap_or p.metadata.name "";
  network_policy_ref = λ p. unwrap_or p.metadata.name "";
  KubeError = ℕ;
  api_code = λ e. some e;
  kube_error_text = λ e. "api error";
  get_opt_network_policy = λ ns name. on_kube (handle_get_network_policy (ns, name));
  apply_network_policy = λ ns name manager np. on_kube (handle_patch_network_policy (ns, name) np);
  delete_network_policy = λ ns name. on_kube (handle_delete_network_policy (ns, name));
  get_cidr_policy = λ ns name. on_kube (handle_get_cidr_policy (ns, name));
  patch_cidr_policy_status =
      λ ns name manager status. on_kube (handle_patch_status (ns, name) status);
  publish = λ e r. on_kube (handle_post_event e);
}

-- `rendered_ipblocks`: the blocks of all ingress rules.
abbrev blocks_of : List NetworkPolicyPeer → List String
blocks_of [] = []
blocks_of (peer ∷ peers) =
    let rest = blocks_of peers in
    elim peer.ip_block [ none ↦ rest | some block ↦ block.cidr ∷ rest ]

abbrev blocks_of_rules : List NetworkPolicyIngressRule → List String
blocks_of_rules [] = []
blocks_of_rules (rule ∷ rules) = blocks_of (unwrap_or rule.from []) ++ blocks_of_rules rules

abbrev pub rendered_ipblocks : NetworkPolicy String → List String
rendered_ipblocks network_policy =
    blocks_of_rules (unwrap_or (and_then network_policy.spec (λ spec. spec.ingress)) [])

-- `event_reasons`, which sorts them.
abbrev insert_reason : String → List String → List String
insert_reason a [] = a ∷ []
insert_reason a (b ∷ bs) =
    let rest = insert_reason a bs in elim (compare a b) [ Ordering.gt ↦ b ∷ rest | _ ↦ a ∷ b ∷ bs ]

abbrev sorted : List String → List String
sorted [] = []
sorted (a ∷ more) = insert_reason a (sorted more)

abbrev pub event_reasons : FakeKubeState → List String
event_reasons state = sorted state.events
