-- ===== src/Controller/Managed.antt =====
-- controller.rs: events, and the calls that read, apply and delete the managed NetworkPolicy.
use ipmaze.Base.{
  String, Bool, true, false, Option, none, some, map_option, Result, ok, err, string_eq, option_eq,
  list_eq, if◌then◌else◌, ◌<>◌, ◌=ℕ◌, is_some_and,
}
use ipmaze.Base.Action.{Action, ◌>>=◌, ◌>>◌, pure, throw, convert}
use ipmaze.Api.{CidrPolicy, managed_network_policy_name}
use ipmaze.Libs.{Libs}
use ipmaze.World.{World, EventType, warning}
use ipmaze.Networking.{NetworkPolicy, spec_eq, map_eq}
use ipmaze.Text.{to_lowercase}
use ipmaze.NetPol.{field_manager, is_managed_network_policy_for}
use ipmaze.Controller.Errors.{ReconcileError, managed_policy_collision_error, kubernetes_api_error}

-- `unwrap_or_default` of the name in `apply_managed_network_policy`.
abbrev pub name_or_default : Option String → String
name_or_default none = ""
name_or_default (some name) = name

module _ (L : Libs) (W : World L) where
  open L use {OwnerReference, Value}
  open W use {
    State, KubeError, ObjectReference, name_any, namespace, object_ref, network_policy_ref,
    api_code, get_opt_network_policy, apply_network_policy, delete_network_policy, publish,
  }

  -- netpol.rs; the first argument is the namespace of `api`.
  unfoldable pub apply_managed_network_policy :
      String → NetworkPolicy OwnerReference → Action State (Unit {0}) KubeError
  apply_managed_network_policy ns network_policy =
      apply_network_policy ns (name_or_default network_policy.metadata.name) field_manager
        network_policy

  unfoldable pub publish_policy_event :
      CidrPolicy OwnerReference
      → EventType
      → (reason action : String) → Option String
      → Option (NetworkPolicy OwnerReference)
      → Action State (Unit {0}) KubeError
  publish_policy_event policy type_ reason action note secondary =
      publish
        (record {
          type_ = type_;
          reason = reason;
          note = note;
          action = action;
          secondary = map_option network_policy_ref secondary;
        })
        (object_ref policy)

  -- Without its log line.
  unfoldable pub report_managed_policy_collision :
      CidrPolicy OwnerReference
      → NetworkPolicy OwnerReference
      → String
      → Action State (Unit {0}) KubeError
  report_managed_policy_collision policy network_policy action =
      publish_policy_event policy warning "ManagedPolicyCollision" action
        (some (
          "Refusing to "
          <> (to_lowercase action
              <> (" NetworkPolicy "
                  <> (managed_network_policy_name policy
                      <> " because an existing resource with that name is not owned by this CIDRPolicy")))))
        (some network_policy)

  -- The arm `Some(network_policy)`.
  unfoldable pub check_owned :
      CidrPolicy OwnerReference
      → String
      → NetworkPolicy OwnerReference
      → Action State (Option (NetworkPolicy OwnerReference)) (ReconcileError L W)
  check_owned policy action network_policy =
      if is_managed_network_policy_for L W policy network_policy
      then pure (some network_policy)
      else do
        convert kubernetes_api_error (report_managed_policy_collision policy network_policy action)
        throw (managed_policy_collision_error (managed_network_policy_name policy))

  -- The first argument is the namespace of `api`.
  unfoldable pub get_managed_network_policy :
      String
      → CidrPolicy OwnerReference
      → String
      → Action State (Option (NetworkPolicy OwnerReference)) (ReconcileError L W)
  get_managed_network_policy ns policy action = do
    found ←
        convert kubernetes_api_error
          (get_opt_network_policy ns (managed_network_policy_name policy))
    elim found [ some network_policy ↦ check_owned policy action network_policy | none ↦ pure none ]

  -- The `match` on what the deletion returned: an object that is gone is no error.
  unfoldable pub deletion_result : Result (Unit {0}) KubeError → Result Bool (ReconcileError L W)
  deletion_result (ok _) = ok true
  deletion_result (err e) =
      if is_some_and (api_code e) (λ code. code =ℕ 404)
      then ok false
      else err (kubernetes_api_error e)

  unfoldable pub delete_managed_network_policy :
      String → CidrPolicy OwnerReference → Bool → Action State Bool (ReconcileError L W)
  delete_managed_network_policy ns policy false s = (ok false, s)
  delete_managed_network_policy ns policy true s =
      let (r, s') = delete_network_policy ns (managed_network_policy_name policy) s in
      (deletion_result r, s')
