-- ===== src/Tests/Calls.antt =====
-- The calls of the controller at concrete inputs.
use ipmaze.Base.{[], length, ◌≤◌}
use ipmaze.Controller.{reconcile, error_policy}
use ipmaze.Controller.Errors.{managed_policy_collision_error}
use ipmaze.Controller.Calls.{logged}
use ipmaze.Controller.Calls.Plain.{Mirrors, reconcile-IsCourse}
use ipmaze.Controller.Calls.Reaches.{Reaches}
use ipmaze.Controller.Calls.Settling.{Fits}
use ipmaze.Controller.Calls.Guard.{IsGuarded, reconcile-IsGuarded}
use ipmaze.Controller.Calls.Count.{reconcile-length}
use ipmaze.Tests.Crates.{test_libs}
use ipmaze.Tests.Outside.{test_world}
use ipmaze.Tests.Policies.{policy}
use ipmaze.Tests.Reconciling.{start}

reconcile-IsCourse_example :
    Reaches test_libs test_world policy
      (Fits test_libs test_world)
      (reconcile test_libs (logged test_libs test_world) policy (start, []))
    × Mirrors test_libs test_world
        (reconcile test_libs (logged test_libs test_world) policy (start, []))
        (reconcile test_libs test_world policy start)
reconcile-IsCourse_example = reconcile-IsCourse test_libs test_world policy start

reconcile-IsGuarded_example :
    IsGuarded test_libs test_world policy
      ((reconcile test_libs (logged test_libs test_world) policy (start, [])).1).1
reconcile-IsGuarded_example = reconcile-IsGuarded test_libs test_world policy start

reconcile-length_example :
    (length ((reconcile test_libs (logged test_libs test_world) policy (start, [])).1).1 ≤ 8)
    × (length
          (((error_policy test_libs
                (logged test_libs test_world)
                300
                policy
                (managed_policy_collision_error "partners-managed")).1
              (start, [])).1
            ).1
        ≤ 3)
reconcile-length_example =
    reconcile-length test_libs test_world policy 300
      (managed_policy_collision_error "partners-managed") (start, [])
