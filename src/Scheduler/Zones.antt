-- ===== src/Scheduler/Zones.antt =====
-- The scheduler over the schedule expressions of a time zone: `scheduler_tick`
-- (honker-core/src/honker_ops.rs) with `next_after_unix` (honker-core/src/cron.rs).
use honker.Scheduler.Done.{scheduler_tick_done, AllCaughtUp}
use honker.Action.{ok}
use honker.Table.{count_if, select, order_by}
use honker.Base.Int.{◌≤ℤ◌, ℤ}
use honker.Cron.Calendar.{IsCalendar, Calendar}
use honker.Cron.Zone.{TimeZone, next_after_unix}
use honker.Cron.Zone.Calls.{Once, next_after_unix_later, Early}
use honker.Cron.Zone.Later.{IsTimeZone}
use honker.Scheduler.Tick.{Schedule, max_catchup_fires, is_due_task, Fire, scheduler_tick}
use honker.Base.{ℕ, ◌+◌, ◌*◌, ◌≤◌, ◌≡◌, List, length, All}
use honker.Scheduler.{by_name}

-- A tick that succeeds leaves no enabled task due. Its fires are, for one task that was due after the
-- other in the order of the names, those at the boundaries of the task's schedule from its own
-- `next_fire_at` on, each the result of `next_after_unix` for the one before it, none past the time of
-- the tick, up to the last boundary before that or 64 fires of the task. Each fire adds one job. It is
-- assumed that the zone's clock does not repeat the local time of the tick, and that this is more than
-- two hundred years before the calendar ends, where there is one.
pub scheduler_tick_in_zone :
    (cal : Calendar) (tz : TimeZone) (tick_at now : ℤ) (created : ℕ → ℤ) (s s' : Schedule)
    (fires : List Fire)
    → IsCalendar cal
    → IsTimeZone tz
    → Early cal tz tick_at
    → Once tz tick_at
    → scheduler_tick (next_after_unix cal tz) tick_at now created s ≡ (ok fires, s')
    → (count_if (is_due_task tick_at) s'.tasks ≡ 0)
      × (length fires ≤ max_catchup_fires * count_if (is_due_task tick_at) s.tasks)
      × All (λ f. f.fire_at ≤ℤ tick_at) fires
      × AllCaughtUp
          (next_after_unix cal tz)
          tick_at
          (order_by by_name (select (is_due_task tick_at) s.tasks))
          fires
      × (length s'.jobs.live ≡ length s.jobs.live + length fires)
scheduler_tick_in_zone cal tz tick_at now created s s' fires laws zone early once h =
    scheduler_tick_done (next_after_unix cal tz) tick_at now created
      (λ expr u e. next_after_unix_later cal tz laws tick_at early expr u zone once e) s s' fires h
