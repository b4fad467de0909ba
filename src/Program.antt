-- ===== src/Program.antt =====
-- main.rs, `generate_crd_yaml` of lib.rs, `run_controller` of controller.rs, `build_http_client` of
-- source.rs: how the program starts.
pub mod Start
use ipmaze.Base.{ℕ, String, Option, Result, ok, err, some, none, ◌<>◌, ◌*◌}
use ipmaze.Base.Action.{Action, ◌>>=◌, lift}
use ipmaze.Api.{CidrPolicy}
use ipmaze.Libs.{Libs}
use ipmaze.World.{World}
use ipmaze.Controller.{Next, reconcile, error_policy}
use ipmaze.Controller.Errors.{ReconcileError}
use ipmaze.Controller.Requeue.{one_second}

abbrev pub controller_name : String
controller_name = "ipmaze-controller"

abbrev pub controller_instance_env : String
controller_instance_env = "CONTROLLER_POD_NAME"

-- A duration is in nanoseconds.
pub record ControllerConfig : Type 0 where
  pub requeue_after : ℕ

pub record ControllerContext (Client HttpClient Recorder : Type 0) : Type 0 where
  pub client : Client
  pub http_client : HttpClient
  pub event_recorder : Recorder
  pub requeue_after : ℕ

-- `kube::runtime::events::Reporter`
pub record Reporter : Type 0 where
  pub controller : String
  pub instance_name : Option String

-- What `reqwest::ClientBuilder` is told.
pub record HttpOptions : Type 0 where
  pub redirect_limit : ℕ
  pub user_agent : String

-- The subcommands; clap reads them, with 300 seconds when none are given.
pub data Command : Type 0 where
  generate_crd : Command
  run : ℕ → Command

abbrev pub default_requeue_seconds : ℕ
default_requeue_seconds = 300

-- The libraries that the program is started with. The calls through the three clients are the
-- `World`'s.
pub record Host (L : Libs) (W : World L) : Type 1 where
  pub Client : Type 0
  pub HttpClient : Type 0
  pub Recorder : Type 0
  -- `Box<dyn Error>`
  pub Failure : Type 0
  pub client_try_default : Result Client Failure
  pub build_client : HttpOptions → Result HttpClient Failure
  pub new_recorder : Client → Reporter → Recorder
  pub VarError : Type 0
  pub env_var : String → Result String VarError
  -- `env!` of the package's name and version
  pub package_name : String
  pub package_version : String
  -- `serde_yaml::to_string(&CIDRPolicy::crd())`
  pub crd_yaml : Result String Failure
  pub print : String → W.State → W.State
  -- `Controller::new(..).owns(..).run(reconcile, error_policy, context)`, to the end of its stream
  pub run_stream :
      ControllerContext Client HttpClient Recorder
      → (CidrPolicy L.OwnerReference → Action W.State Next (ReconcileError L W))
      → (CidrPolicy L.OwnerReference
          → ReconcileError L W
          → Next × Action W.State (Unit {0}) W.KubeError)
      → W.State
      → W.State

-- `Duration::from_secs`
unfoldable pub from_secs : ℕ → ℕ
from_secs seconds = seconds * one_second

module _ (L : Libs) (W : World L) (H : Host L W) where
  open W use {State}
  open H use {Client, HttpClient, Recorder, Failure}

  unfoldable pub reporter_from_env : Reporter
  reporter_from_env = record {
    controller = controller_name;
    instance_name = elim (H.env_var controller_instance_env) [
      | ok value ↦ some value
      | err _ ↦ none
    ];
  }

  unfoldable pub build_http_client : Result HttpClient Failure
  build_http_client =
      H.build_client
        (record { redirect_limit = 10; user_agent = H.package_name <> ("/" <> H.package_version) })

  unfoldable pub context_of :
      ControllerConfig → Client → HttpClient → ControllerContext Client HttpClient Recorder
  context_of config client http_client = record {
    client = client;
    http_client = http_client;
    event_recorder = H.new_recorder client reporter_from_env;
    requeue_after = config.requeue_after;
  }

  -- Without the log line of each result.
  unfoldable pub run_controller : ControllerConfig → Action State (Unit {0}) Failure
  run_controller config = do
    client ← lift H.client_try_default
    http_client ← lift build_http_client
    let context = context_of config client http_client
    λ s. (ok tt, H.run_stream context (reconcile L W) (error_policy L W context.requeue_after) s)

  unfoldable pub generate_crd_yaml : Result String Failure
  generate_crd_yaml = H.crd_yaml

  -- After `Cli::parse`.
  unfoldable pub main : Command → Action State (Unit {0}) Failure
  main generate_crd = do yaml ← lift generate_crd_yaml; (λ s. (ok tt, H.print yaml s))
  main (run requeue_seconds) = run_controller (record { requeue_after = from_secs requeue_seconds })
