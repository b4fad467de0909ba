-- ===== src/Controller/Calls.antt =====
-- The calls that the controller makes to the outside, with what comes back: any `World` is given a
-- log. The world may answer as it likes, so also as other writers of the cluster make it answer.
pub mod Protocol
pub mod Follows
pub mod Reaches
pub mod Count
pub mod Copies
pub mod Plain
pub mod Guard
pub mod Reading
pub mod Settling
pub mod Requests
use ipmaze.Base.{ℕ, String, Option, List, ◌∷◌, Result, ok, err, Bool, true, false}
use ipmaze.Base.Action.{Action}
use ipmaze.Api.{CidrPolicy, CidrPolicyStatus}
use ipmaze.Networking.{NetworkPolicy}
use ipmaze.Libs.{Libs}
use ipmaze.World.{World, Event}

abbrev pub is_ok {ℓ} : {A E : Type ℓ} → Result A E → Bool
is_ok (ok _) = true
is_ok (err _) = false

pub data Call (L : Libs) (W : World L) : Type 0 where
  sent : L.Url → Result W.Response L.HttpError → Call L W
  -- whether the whole body came
  received : W.Response → Bool → Call L W
  read_policy :
      String → String → Result (Option (NetworkPolicy L.OwnerReference)) W.KubeError → Call L W
  applied :
      String → String → NetworkPolicy L.OwnerReference → Result (Unit {0}) W.KubeError → Call L W
  deleted : String → String → Result (Unit {0}) W.KubeError → Call L W
  read_source : String → String → Result (CidrPolicy L.OwnerReference) W.KubeError → Call L W
  patched : String → String → CidrPolicyStatus → Result (Unit {0}) W.KubeError → Call L W
  published : Event W.ObjectReference → Result (Unit {0}) W.KubeError → Call L W

-- The outside with the calls made so far, the latest first.
abbrev pub Logged : (L : Libs) → World L → Type 0
Logged L W = W.State × List (Call L W)

module _ (L : Libs) (W : World L) where
  -- An action of the world, and the entry that it leaves.
  abbrev pub note_call :
      {A E : Type 0} → Action W.State A E → (Result A E → Call L W) → Action (Logged L W) A E
  note_call m entry (s, log) = let (r, s') = m s in (r, (s', entry r ∷ log))

  abbrev pub logged : World L
  logged = record {
    State = Logged L W;
    Response = W.Response;
    send = λ u. note_call (W.send u) (sent u);
    error_for_status = W.error_for_status;
    text = λ r. note_call (W.text r) (λ body. received r (is_ok body));
    bytes = λ r. note_call (W.bytes r) (λ body. received r (is_ok body));
    now = λ s. W.now s.0;
    ObjectReference = W.ObjectReference;
    name_any = W.name_any;
    namespace = W.namespace;
    controller_owner_ref = W.controller_owner_ref;
    object_ref = W.object_ref;
    network_policy_ref = W.network_policy_ref;
    KubeError = W.KubeError;
    api_code = W.api_code;
    kube_error_text = W.kube_error_text;
    get_opt_network_policy = λ n m. note_call (W.get_opt_network_policy n m) (read_policy n m);
    apply_network_policy = λ n m k np. note_call (W.apply_network_policy n m k np) (applied n m np);
    delete_network_policy = λ n m. note_call (W.delete_network_policy n m) (deleted n m);
    get_cidr_policy = λ n m. note_call (W.get_cidr_policy n m) (read_source n m);
    patch_cidr_policy_status =
        λ n m k status. note_call (W.patch_cidr_policy_status n m k status) (patched n m status);
    publish = λ e r. note_call (W.publish e r) (published e);
  }
