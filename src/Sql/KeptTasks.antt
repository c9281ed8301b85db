-- ===== src/Sql/KeptTasks.antt =====
-- The SQL functions on schedules keep the invariants of the tables (honker-core/src/honker_ops.rs).
use honker.Base.{ℕ, suc, String, none}
use honker.Action.{ok, Result}
use honker.Scheduler.{scheduler_soonest, scheduler_list}
use honker.Sql.{unix_time, task_rows, number, Context}
use honker.Base.Int.{ℤ, pos}
use honker.Sql.SoundTasks.{
  scheduler_resume-Keeps, scheduler_pause-Keeps, scheduler_unregister-Keeps, scheduler_update-Keeps,
  scheduler_register-Keeps,
}
use honker.Sql.Operations.{reads, task_op, query, KeepsAll, schedule_op}
use honker.Sql.TaskCalls.{
  honker_scheduler_pause, honker_scheduler_list, honker_scheduler_update_max,
  honker_cron_next_after, honker_scheduler_update, honker_scheduler_register_max, touched,
  honker_scheduler_soonest, honker_scheduler_tick, honker_scheduler_resume,
  honker_scheduler_unregister, honker_scheduler_register,
}
use honker.Sql.SoundTick.{scheduler_tick-Keeps}

pub honker_scheduler_register-Keeps :
    (next_after : String → ℤ → Result ℤ) (c : Context) (t : ℕ → ℤ)
    → KeepsAll (honker_scheduler_register next_after c t)
unfolding honker_scheduler_register
honker_scheduler_register-Keeps next_after c t = reads (c.get_text 0) (λ name.
    reads (c.get_text 1) (λ queue. reads (c.get_text 2) (λ cron_expr.
      reads (c.get_text 3) (λ payload. reads (c.i64 4) (λ priority.
        reads (c.opt_i64 5) (λ expires_s. task_op number (
          scheduler_register-Keeps next_after name queue cron_expr payload priority expires_s
            (pos 3) (t 0))))))))

pub honker_scheduler_register_max-Keeps :
    (next_after : String → ℤ → Result ℤ) (c : Context) (t : ℕ → ℤ)
    → KeepsAll (honker_scheduler_register_max next_after c t)
unfolding honker_scheduler_register_max
honker_scheduler_register_max-Keeps next_after c t = reads (c.get_text 0) (λ name.
    reads (c.get_text 1) (λ queue. reads (c.get_text 2) (λ cron_expr.
      reads (c.get_text 3) (λ payload. reads (c.i64 4) (λ priority.
        reads (c.opt_i64 5) (λ expires_s. reads (c.i64 6) (λ max_attempts. task_op number (
          scheduler_register-Keeps next_after name queue cron_expr payload priority expires_s
            max_attempts (t 0)))))))))

pub honker_scheduler_tick-Keeps :
    (next_after : String → ℤ → Result ℤ) (c : Context) (t : ℕ → ℤ)
    → KeepsAll (honker_scheduler_tick next_after c t)
unfolding honker_scheduler_tick
honker_scheduler_tick-Keeps next_after c t =
    reads (c.i64 0)
      (λ now_unix. schedule_op (scheduler_tick-Keeps next_after now_unix (t 0) (λ i. t (suc i))))

pub honker_scheduler_update-Keeps :
    (next_after : String → ℤ → Result ℤ) (c : Context) (t : ℕ → ℤ)
    → KeepsAll (honker_scheduler_update next_after c t)
unfolding honker_scheduler_update
honker_scheduler_update-Keeps next_after c t = reads (c.get_text 0) (λ name.
    reads (c.opt_text 1) (λ cron_expr. reads (c.opt_text 2) (λ payload.
      reads (c.opt_i64 3) (λ priority. reads (c.opt_i64 4) (λ expires_s.
        reads (c.i64 5) (λ touch_expires. task_op number (
          scheduler_update-Keeps next_after name cron_expr payload priority
            (touched touch_expires expires_s) none (t 0))))))))

pub honker_scheduler_update_max-Keeps :
    (next_after : String → ℤ → Result ℤ) (c : Context) (t : ℕ → ℤ)
    → KeepsAll (honker_scheduler_update_max next_after c t)
unfolding honker_scheduler_update_max
honker_scheduler_update_max-Keeps next_after c t = reads (c.get_text 0) (λ name.
    reads (c.opt_text 1) (λ cron_expr. reads (c.opt_text 2) (λ payload.
      reads (c.opt_i64 3) (λ priority. reads (c.opt_i64 4) (λ expires_s.
        reads (c.i64 5) (λ touch_expires. reads (c.opt_i64 6) (λ max_attempts.
          reads (c.i64 7) (λ touch_max_attempts. task_op number (
            scheduler_update-Keeps next_after name cron_expr payload priority
              (touched touch_expires expires_s) (touched touch_max_attempts max_attempts)
              (t 0))))))))))

pub honker_cron_next_after-Keeps :
    (next_after : String → ℤ → Result ℤ) (c : Context) (t : ℕ → ℤ)
    → KeepsAll (honker_cron_next_after next_after c t)
unfolding honker_cron_next_after
honker_cron_next_after-Keeps next_after c t =
    reads (c.get_text 0)
      (λ expr. reads (c.i64 1) (λ from_unix. query unix_time (λ db. next_after expr from_unix)))

pub honker_scheduler_unregister-Keeps :
    (c : Context) (t : ℕ → ℤ) → KeepsAll (honker_scheduler_unregister c t)
unfolding honker_scheduler_unregister
honker_scheduler_unregister-Keeps c t =
    reads (c.get_text 0) (λ name. task_op number (scheduler_unregister-Keeps name))

pub honker_scheduler_soonest-Keeps :
    (c : Context) (t : ℕ → ℤ) → KeepsAll (honker_scheduler_soonest c t)
unfolding honker_scheduler_soonest
honker_scheduler_soonest-Keeps c t = query unix_time (λ db. scheduler_soonest db.tasks)

pub honker_scheduler_pause-Keeps : (c : Context) (t : ℕ → ℤ) → KeepsAll (honker_scheduler_pause c t)
unfolding honker_scheduler_pause
honker_scheduler_pause-Keeps c t =
    reads (c.get_text 0) (λ name. task_op number (scheduler_pause-Keeps name))

pub honker_scheduler_resume-Keeps :
    (c : Context) (t : ℕ → ℤ) → KeepsAll (honker_scheduler_resume c t)
unfolding honker_scheduler_resume
honker_scheduler_resume-Keeps c t =
    reads (c.get_text 0) (λ name. task_op number (scheduler_resume-Keeps name))

pub honker_scheduler_list-Keeps : (c : Context) (t : ℕ → ℤ) → KeepsAll (honker_scheduler_list c t)
unfolding honker_scheduler_list
honker_scheduler_list-Keeps c t = query task_rows (λ db. ok (scheduler_list db.tasks))
