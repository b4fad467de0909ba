-- ===== src/Tests/Starting.antt =====
-- main.rs: the program is started on a small cluster; and a CIDRPolicy is cleaned up.
use ipmaze.Base.{
  String, string_eq, string_dec, option_eq, list_eq, ◌≡◌, ◌≢◌, refl, inl, inr, none, some, List, [],
  ◌∷◌, Result, ok, err, arith,
}
use ipmaze.Base.Action.{Action}
use ipmaze.Api.{CidrPolicy, managed_network_policy_name}
use ipmaze.Controller.Managed.{
  get_managed_network_policy, check_owned, delete_managed_network_policy, deletion_result,
  publish_policy_event,
}
use ipmaze.NetPol.{is_managed_network_policy_for}
use ipmaze.Controller.{cleanup, cleanup_note, reconcile, Next, await_change}
use ipmaze.Controller.Errors.{ReconcileError}
use ipmaze.Controller.Cleanup.{Erases}
use ipmaze.Controller.Interleaved.Cleaned.{reconcile-cleaned}
use ipmaze.Controller.Isolation.{reconcile_separate}
use ipmaze.Controller.Resync.{IsLater}
use ipmaze.Program.{Host, main, run, from_secs}
use ipmaze.Program.Start.{IsConfined, main-interleaved, cycle, cycle-IsLater}
use ipmaze.World.{World}
use ipmaze.Tests.Interleaved.{meddle, busy}
use ipmaze.Tests.Crates.{test_libs}
use ipmaze.Tests.Outside.{test_world, TestState, Stored, find, remove}
use ipmaze.Tests.Policies.{policy, built}
use ipmaze.Tests.Reconciling.{start}
use ipmaze.Tests.Cluster.{test_cluster, state_with}

-- A runtime in which one CIDRPolicy becomes due once.
module _ (W : World test_libs) where
  abbrev Failed : Type 0
  Failed = ReconcileError test_libs W

  abbrev once :
      (CidrPolicy String → Action W.State Next Failed)
      → (CidrPolicy String → Failed → Next × Action W.State (Unit {0}) W.KubeError)
      → Result Next Failed × W.State
      → W.State
  once r p (ok next, s) = s
  once r p (err e, s) = ((p policy e).1 s).1

  abbrev host_of : (String → W.State → W.State) → Host test_libs W
  host_of print = record {
    Client = Unit {0};
    HttpClient = Unit {0};
    Recorder = Unit {0};
    Failure = String;
    client_try_default = ok tt;
    build_client = λ options. ok tt;
    new_recorder = λ client reporter. tt;
    VarError = Unit {0};
    env_var = λ name. err tt;
    package_name = "ipmaze-controller";
    package_version = "0.1.0";
    crd_yaml = ok "kind: CustomResourceDefinition";
    print = print;
    run_stream = λ context r p s. once r p (r policy s);
  }

  once_keeps :
      (Keeps : W.State → Type 0) (r : CidrPolicy String → Action W.State Next Failed)
      (p : CidrPolicy String → Failed → Next × Action W.State (Unit {0}) W.KubeError)
      (x : Result Next Failed × W.State)
      → ((e : Failed) (s : W.State) → Keeps s → Keeps (((p policy e).1 s).1))
      → Keeps x.1
      → Keeps (once r p x)
  once_keeps Keeps r p (ok next, s) told h = h
  once_keeps Keeps r p (err e, s) told h = told e s h

abbrev busy_host : Host test_libs busy
busy_host = host_of busy (λ text (s, k). (record s { events = text ∷ s.events }, k))

busy_host-IsConfined :
    IsConfined test_libs busy (λ s. test_cluster.netpol_at s.0) busy_host (λ p. p ≡ policy)
busy_host-IsConfined = record {
  confined = λ Keeps context r p s reconciled told h.
      once_keeps busy Keeps r p (r policy s) (λ e s₁ kept. told policy e s₁ refl kept)
        (reconciled policy s refl h);
  kept_by_print = λ text s ns name. refl;
}

main-interleaved_example :
    find "default" "other" ((main test_libs busy busy_host (run 300) (start, 0)).1.0).policies
    ≡ some built
unfolding managed_network_policy_name string_eq string_dec
main-interleaved_example =
    main-interleaved test_libs test_world test_cluster meddle busy_host (λ p. p ≡ policy) (run 300)
      (start, 0) "default" "other" built (λ k s there. there) busy_host-IsConfined
      (λ p same. inr (inl (away p same))) refl
  where
    away : (p : CidrPolicy String) → p ≡ policy → "other" ≢ managed_network_policy_name p
    away p same = rw same cc

cycle-IsLater_example :
    IsLater test_libs test_world ((cycle test_libs test_world (from_secs 300) policy start).0)
cycle-IsLater_example = cycle-IsLater test_libs test_world policy 300 start (omega arith) refl

-- The CIDRPolicy is going, and its object is still there.
abbrev pub leaving : CidrPolicy String
leaving = record policy {
  metadata = record policy.metadata { deletion_timestamp = some "2026-01-01T00:00:00Z" };
}

abbrev pub crowded : TestState
crowded =
    state_with none
      (record { namespace = "default"; name = "partners-managed"; object = built } ∷ [])

find-remove_same :
    (ns name : String) (policies : List Stored) → find ns name (remove ns name policies) ≡ none
find-remove_same ns name [] = refl
find-remove_same ns name (p ∷ ps) = let rest = find-remove_same ns name ps in ground arith

pub test_world-Erases : Erases test_libs test_world test_cluster
test_world-Erases = record {
  deleted = λ n m s u h. let rest = find-remove_same n m s.policies in ground arith;
  missing = λ n m s e h gone. ground arith;
}

-- Others add objects elsewhere after each call.
reconcile-cleaned_example :
    find "default" "partners-managed" ((reconcile test_libs busy leaving (crowded, 0)).1.0).policies
    ≡ none
unfolding managed_network_policy_name reconcile cleanup get_managed_network_policy check_owned
    is_managed_network_policy_for delete_managed_network_policy deletion_result publish_policy_event
    cleanup_note string_eq string_dec
reconcile-cleaned_example =
    reconcile-cleaned test_libs test_world test_cluster meddle leaving (crowded, 0) "default"
      await_change test_world-Erases (λ k s free. free) refl refl succeeds
  where
    succeeds : (reconcile test_libs busy leaving (crowded, 0)).0 ≡ ok await_change
    succeeds = refl

-- Another CIDRPolicy.
abbrev friends : CidrPolicy String
friends = record policy { metadata = record policy.metadata { name = some "friends" } }

reconcile_separate_example :
    find "default"
      (managed_network_policy_name friends)
      ((reconcile test_libs test_world policy start).1).policies
    ≡ find "default" (managed_network_policy_name friends) start.policies
reconcile_separate_example =
    reconcile_separate test_libs test_world test_cluster policy friends start "default" "partners"
      "friends" refl refl cc
