-- ===== src/Sql/TaskCalls.antt =====
-- The SQL functions on schedules (honker-core/src/honker_ops.rs, `attach_honker_functions`).
use honker.Base.{suc, String, Option, none, some, List, if◌then◌else◌}
use honker.Action.{Action, ok, lift, ◌>>=◌, Result}
use honker.Scheduler.{
  scheduler_soonest, scheduler_resume, scheduler_list, scheduler_update, scheduler_register,
  scheduler_pause, scheduler_unregister,
}
use honker.Sql.{
  shown, Database, asks, Body, number, on_tasks, Reply, fired_jobs, unix_time, task_rows,
}
use honker.Base.Int.{eq_ℤ, ℤ, pos}
use honker.Scheduler.Tick.{Schedule, scheduler_tick, Fire}

-- A flag that is not 0 says that the value before it is to be stored, NULL included.
abbrev pub touched : ℤ → Option ℤ → Option (Option ℤ)
touched flag v = if eq_ℤ flag (pos 0) then none else some v

abbrev pub on_schedule : Action Schedule (List Fire) → Action Database Reply
on_schedule m db =
    let (r, s) = m (record { tasks = db.tasks; jobs = db.jobs }) in
    (shown fired_jobs r, record db { tasks = s.tasks; jobs = s.jobs })

-- `next_after` is `next_after_unix` (honker-core/src/cron.rs).
module _ (next_after : String → ℤ → Result ℤ) where
  unfoldable pub honker_scheduler_register : Body
  honker_scheduler_register c t = do
    name ← lift (c.get_text 0)
    queue ← lift (c.get_text 1)
    cron_expr ← lift (c.get_text 2)
    payload ← lift (c.get_text 3)
    priority ← lift (c.i64 4)
    expires_s ← lift (c.opt_i64 5)
    on_tasks number (
        scheduler_register next_after name queue cron_expr payload priority expires_s (pos 3) (t 0))

  unfoldable pub honker_scheduler_register_max : Body
  honker_scheduler_register_max c t = do
    name ← lift (c.get_text 0)
    queue ← lift (c.get_text 1)
    cron_expr ← lift (c.get_text 2)
    payload ← lift (c.get_text 3)
    priority ← lift (c.i64 4)
    expires_s ← lift (c.opt_i64 5)
    max_attempts ← lift (c.i64 6)
    on_tasks number (
        scheduler_register next_after name queue cron_expr payload priority expires_s max_attempts
          (t 0))

  -- The clock's readings after the first are those of the inserted rows.
  unfoldable pub honker_scheduler_tick : Body
  honker_scheduler_tick c t = do
    now_unix ← lift (c.i64 0)
    on_schedule (scheduler_tick next_after now_unix (t 0) (λ i. t (suc i)))

  unfoldable pub honker_scheduler_update : Body
  honker_scheduler_update c t = do
    name ← lift (c.get_text 0)
    cron_expr ← lift (c.opt_text 1)
    payload ← lift (c.opt_text 2)
    priority ← lift (c.opt_i64 3)
    expires_s ← lift (c.opt_i64 4)
    touch_expires ← lift (c.i64 5)
    on_tasks number (
        scheduler_update next_after name cron_expr payload priority
          (touched touch_expires expires_s) none (t 0))

  unfoldable pub honker_scheduler_update_max : Body
  honker_scheduler_update_max c t = do
    name ← lift (c.get_text 0)
    cron_expr ← lift (c.opt_text 1)
    payload ← lift (c.opt_text 2)
    priority ← lift (c.opt_i64 3)
    expires_s ← lift (c.opt_i64 4)
    touch_expires ← lift (c.i64 5)
    max_attempts ← lift (c.opt_i64 6)
    touch_max_attempts ← lift (c.i64 7)
    on_tasks number (
        scheduler_update next_after name cron_expr payload priority
          (touched touch_expires expires_s) (touched touch_max_attempts max_attempts) (t 0))

  unfoldable pub honker_cron_next_after : Body
  honker_cron_next_after c t = do
    expr ← lift (c.get_text 0)
    from_unix ← lift (c.i64 1)
    asks unix_time (λ db. next_after expr from_unix)

unfoldable pub honker_scheduler_unregister : Body
honker_scheduler_unregister c t = do
  name ← lift (c.get_text 0)
  on_tasks number (scheduler_unregister name)

unfoldable pub honker_scheduler_soonest : Body
honker_scheduler_soonest c t = asks unix_time (λ db. scheduler_soonest db.tasks)

unfoldable pub honker_scheduler_pause : Body
honker_scheduler_pause c t = do name ← lift (c.get_text 0); on_tasks number (scheduler_pause name)

unfoldable pub honker_scheduler_resume : Body
honker_scheduler_resume c t = do name ← lift (c.get_text 0); on_tasks number (scheduler_resume name)

unfoldable pub honker_scheduler_list : Body
honker_scheduler_list c t = asks task_rows (λ db. ok (scheduler_list db.tasks))
