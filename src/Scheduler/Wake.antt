-- ===== src/Scheduler/Wake.antt =====
-- `scheduler_soonest` and `scheduler_register`: when a leader has to wake up
-- (honker-core/src/honker_ops.rs).
use text.Mathlib.TextPositions.{eq_refl}
use honker.Scheduler.{
  Task, scheduler_register, set_enabled, reregistered, new_task, is_enabled, or_none,
  scheduler_soonest, is_task,
}
use honker.Scheduler.Tick.{
  Schedule, Fire, scheduler_tick_inner, is_due_task, scheduler_tick, fire_tasks,
}
use honker.Base.Int.{ℤ, ◌≤ℤ◌, pos, in_i64, ◌<ℤ◌, ltb_ℤ}
use honker.Action.{err, invalid_column, in_savepoint, Result, ok, Action}
use honker.Table.{count_if, order_by, select}
use honker.Queue.Deadline.{least}
use honker.Queue.Submit.{check_max_attempts}
use honker.Queue.Deadline.Wait.{Later, least-Later}
use honker.Table.Upsert.{find-upsert, upserted, find-upsert_other, find}
use honker.Table.Counts.{select_none}
use honker.Base.{
  ℕ, String, ◌≡◌, refl, ap, ◌∙◌, Bool, true, false, Option, none, some, List, [], map, arith,
  str_eq, eq_iff, if◌then◌else◌,
}
use honker.Client.Subscription.{next}

pub soonest-Later :
    (o : Option ℤ) (t u : ℤ)
    → (if in_i64 (or_none o) then ok (or_none o) else err invalid_column) ≡ ok t
    → u <ℤ t
    → Later u o
soonest-Later none t u h l = tt
soonest-Later (some m) t u h l = ground (arith, h, l)

abbrev nothing_fired : List Fire
nothing_fired = []

module _ (next_after : String → ℤ → Result ℤ) (tick_at now : ℤ) (created : ℕ → ℤ) where
  idle_tick :
      (s : Schedule)
      → count_if (is_due_task tick_at) s.tasks ≡ 0
      → scheduler_tick next_after tick_at now created s ≡ (ok nothing_fired, s)
  unfolding scheduler_tick scheduler_tick_inner in_savepoint order_by fire_tasks
  idle_tick s h = rw (select_none (is_due_task tick_at) s.tasks h) refl

  -- A leader that sleeps until the time that `scheduler_soonest` reports misses nothing: a tick before
  -- that time fires no task and changes nothing.
  scheduler_soonest_sound :
      (s : Schedule) (t : ℤ)
      → scheduler_soonest s.tasks ≡ ok t
      → tick_at <ℤ t
      → scheduler_tick next_after tick_at now created s ≡ (ok nothing_fired, s)
  unfolding scheduler_soonest
  scheduler_soonest_sound s t h l = idle_tick s (
      least-Later is_enabled (λ (r : Task). r.next_fire_at) tick_at s.tasks
        (soonest-Later (least (map (λ (r : Task). r.next_fire_at) (select is_enabled s.tasks))) t
          tick_at h l))

-- Whether the task that is there, if one is, is enabled; a new one is.
abbrev pub stays_enabled : Option Task → Bool
stays_enabled none = true
stays_enabled (some t) = t.enabled

module _ (next_after : String → ℤ → Result ℤ) (name queue cron_expr payload : String) (priority : ℤ)
    (expires_s : Option ℤ) (max_attempts now : ℤ) (tasks : List Task) where
  abbrev call : Action (List Task) ℕ
  call =
      scheduler_register next_after name queue cron_expr payload priority expires_s max_attempts now

  -- A registration with an attempt budget of at least 1 and a schedule that has a next boundary
  -- returns 1 and stores that boundary and the other settings, in the place of an earlier
  -- registration of the name if there is one; a task that was paused stays paused. Tasks with other
  -- names stay as they were.
  pub scheduler_register_lem :
      (next : ℤ) (other : String)
      → next_after cron_expr now ≡ ok next
      → pos 1 ≤ℤ max_attempts
      → str_eq name other ≡ false
      → (find (is_task name) (call tasks).1
          ≡ some (
              set_enabled
                (stays_enabled (find (is_task name) tasks))
                (new_task name queue cron_expr payload priority expires_s max_attempts next)))
        × (find (is_task other) (call tasks).1 ≡ find (is_task other) tasks)
        × ((call tasks).0 ≡ ok 1)
  unfolding scheduler_register check_max_attempts
  scheduler_register_lem next other e m d =
      let new = new_task name queue cron_expr payload priority expires_s max_attempts next in
      let guard : ltb_ℤ max_attempts (pos 1) ≡ false = ground (arith, m) in
      rw (guard, e)
        (
          find-upsert (is_task name) new (λ t. true) (reregistered new)
                (ground (arith, eq_refl name)) (λ t h. ground (arith, eq_refl name)) tasks
              ∙ ap some (stored (find (is_task name) tasks)),
          find-upsert_other (is_task name) new (λ t. true) (reregistered new) (is_task other) d
              (λ t k.
                ground (arith, k, d, eq_iff t.name name, eq_iff t.name other, eq_iff name other))
              tasks,
          refl,
        )
    where
      stored :
          (o : Option Task)
          → upserted
              (is_task name)
              (new_task name queue cron_expr payload priority expires_s max_attempts next)
              (λ t. true)
              (reregistered
                (new_task name queue cron_expr payload priority expires_s max_attempts next))
              o
            ≡ set_enabled
                (stays_enabled o)
                (new_task name queue cron_expr payload priority expires_s max_attempts next)
      stored none = refl
      stored (some t) = refl
