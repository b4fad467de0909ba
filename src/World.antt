-- ===== src/World.antt =====
-- What the controller talks to: remote HTTP servers, the API server and the clock. Each call takes
-- the state of the outside and gives it back with its result.
use ipmaze.Base.{ℕ, String, Option, List, Result}
use ipmaze.Base.Action.{Action}
use ipmaze.Api.{CidrPolicy, CidrPolicyStatus}
use ipmaze.Networking.{NetworkPolicy}
use ipmaze.Libs.{Libs}

pub data EventType : Type 0 where
  normal warning : EventType

-- `kube::runtime::events::Event`, over the type of object references.
pub record Event (R : Type 0) : Type 0 where
  pub type_ : EventType
  pub reason : String
  pub note : Option String
  pub action : String
  pub secondary : Option R

pub record World (L : Libs) : Type 1 where
  pub State : Type 0
  -- reqwest: `get(url).send()`, then the response
  pub Response : Type 0
  pub send : L.Url → Action State Response L.HttpError
  pub error_for_status : Response → Result Response L.HttpError
  pub text : Response → Action State String L.HttpError
  pub bytes : Response → Action State (List ℕ) L.HttpError
  -- chrono's clock
  pub now : State → L.DateTime
  -- kube::ResourceExt and kube::Resource
  pub ObjectReference : Type 0
  pub name_any : CidrPolicy L.OwnerReference → String
  pub namespace : CidrPolicy L.OwnerReference → Option String
  pub controller_owner_ref : CidrPolicy L.OwnerReference → Option L.OwnerReference
  pub object_ref : CidrPolicy L.OwnerReference → ObjectReference
  pub network_policy_ref : NetworkPolicy L.OwnerReference → ObjectReference
  -- `kube::Error`; `api_code` is the code of `Error::Api`
  pub KubeError : Type 0
  pub api_code : KubeError → Option ℕ
  pub kube_error_text : KubeError → String
  -- `Api::namespaced(client, namespace)`, then the call; names follow the namespace
  pub get_opt_network_policy :
      String → String → Action State (Option (NetworkPolicy L.OwnerReference)) KubeError
  -- `patch` with `PatchParams::apply(manager).force()` and `Patch::Apply`
  pub apply_network_policy :
      (namespace name manager : String)
      → NetworkPolicy L.OwnerReference
      → Action State (Unit {0}) KubeError
  pub delete_network_policy : String → String → Action State (Unit {0}) KubeError
  pub get_cidr_policy : String → String → Action State (CidrPolicy L.OwnerReference) KubeError
  -- `patch_status` with `Patch::Merge` of the three fields under `status`
  pub patch_cidr_policy_status :
      (namespace name manager : String) → CidrPolicyStatus → Action State (Unit {0}) KubeError
  -- `Recorder::publish`
  pub publish : Event ObjectReference → ObjectReference → Action State (Unit {0}) KubeError
