-- ===== src/Controller/Requeue.antt =====
-- `next_resync_after` and `schedule_requeue_after`; delays are in nanoseconds.
use ipmaze.Base.{ℕ, String, Result, ok, ◌>>=◌, ok_or, map_err, ◌=ℕ◌, if◌then◌else◌}
use ipmaze.Base.Action.{Action}
use ipmaze.Libs.{Libs}
use ipmaze.World.{World}
use ipmaze.Controller.Errors.{ReconcileError, scheduling_error}

-- `Duration::from_secs(1)`
abbrev pub one_second : ℕ
one_second = 1000000000

module _ (L : Libs) where
  open L use {Schedule, DateTime, schedule_after, signed_duration_since, to_std, range_error_text}

  unfoldable pub next_resync_after : Schedule → DateTime → Result ℕ String
  next_resync_after schedule now = do
    next ← ok_or (schedule_after schedule now) "schedule did not produce a future execution"
    delay ← map_err range_error_text (to_std (signed_duration_since next now))
    if delay =ℕ 0 then ok one_second else ok delay

module _ (L : Libs) (W : World L) where
  open W use {State, now}

  unfoldable pub schedule_requeue_after : L.Schedule → Action State ℕ (ReconcileError L W)
  schedule_requeue_after schedule s =
      (map_err scheduling_error (next_resync_after L schedule (now s)), s)
