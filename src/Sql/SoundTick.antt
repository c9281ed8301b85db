-- ===== src/Sql/SoundTick.antt =====
-- The invariants of the tables under `scheduler_tick` (honker-core/src/honker_ops.rs).
use honker.Base.{
  Bool, ℕ, zero, suc, String, ◌≡◌, refl, sym, subst, inl, inr, true, false, none, List, [], ◌∷◌,
  Bool-cases,
}
use honker.Action.{Result, err, Action, ok}
use honker.Scheduler.{is_task, set_next, Task}
use honker.Queue.Submit.{enqueue, check_max_attempts}
use honker.Queue.Valid.{IsValid, Preserves, Preserves-Preorder}
use honker.Queue.Rows.{Jobs}
use honker.Queue.Valid.Calls.{enqueue-Preserves}
use honker.Base.Int.{leb_ℤ, pos, ℤ, ltb_ℤ}
use honker.Sql.SoundTasks.{lifted-Keeps, update-TasksSound}
use honker.Sql.Sound.{Holds-Preorder, Holds, TasksSound}
use honker.Scheduler.Tick.{
  round, skip_backlog, submit_fire, scheduler_tick, Caught, Schedule, scheduler_tick_inner,
  catch_up, fire_task, max_catchup_fires, fire_tasks, store_next,
}
use honker.Action.Keeps.{Keeps-pure, Keeps-bind, Keeps, Keeps-in_savepoint}
use honker.Client.Subscription.{next}

pub record ScheduleSound (s : Schedule) : Type 0 where
  pub tasks : TasksSound s.tasks
  pub jobs : IsValid s.jobs

module _ (next_after : String → ℤ → Result ℤ) (tick_at now : ℤ) (created : ℕ → ℤ) where
  submit_fire-eq :
      (t : Task) (db : Jobs)
      → submit_fire next_after tick_at now created t db
        ≡ enqueue now
            (created db.next_id)
            t.queue
            t.payload
            none
            none
            t.priority
            t.max_attempts
            t.expires_s
            db
  unfolding enqueue check_max_attempts
  submit_fire-eq t db = elim (Bool-cases (ltb_ℤ t.max_attempts (pos 1))) [
    | inl e ↦ rw e refl
    | inr e ↦ rw e refl
  ]

  submit_fire-Preserves :
      (t : Task) → Keeps Preserves (submit_fire next_after tick_at now created t)
  submit_fire-Preserves t = record {
    at = λ db.
        subst (λ (x : Result ℕ × Jobs). Preserves db x.1) (sym (submit_fire-eq t db))
          ((enqueue-Preserves now (created db.next_id) t.queue t.payload none none t.priority
              t.max_attempts t.expires_s).at
            db);
  }

  round-Preserves :
      (t : Task) (next : ℤ) (go_on : ℤ → Action Jobs Caught)
      → ((after : ℤ) → Keeps Preserves (go_on after))
      → Keeps Preserves (round next_after tick_at now created t next go_on)
  round-Preserves t next go_on k =
      Keeps-bind Preserves-Preorder _ _ (submit_fire-Preserves t) (λ job.
        lifted-Keeps IsValid (next_after t.cron_expr next) _ (λ after.
          Keeps-bind Preserves-Preorder _ _ (k after) (λ caught. Keeps-pure Preserves-Preorder _)))

  skip-Preserves : (t : Task) → Keeps Preserves (skip_backlog next_after tick_at now created t)
  skip-Preserves t =
      lifted-Keeps IsValid (next_after t.cron_expr tick_at) _
        (λ after. Keeps-pure Preserves-Preorder _)

  elim-Preserves :
      (b : Bool) (m n : Action Jobs Caught)
      → Keeps Preserves m
      → Keeps Preserves n
      → Keeps Preserves (elim b [ true ↦ m | false ↦ n ])
  elim-Preserves true m n km kn = km
  elim-Preserves false m n km kn = kn

  catch_up-Preserves :
      (left : ℕ) (t : Task) (next_fire : ℤ)
      → Keeps Preserves (catch_up next_after tick_at now created left t next_fire)
  unfolding catch_up
  catch_up-Preserves zero t next_fire =
      elim-Preserves (leb_ℤ next_fire tick_at) _ _ (skip-Preserves t)
        (Keeps-pure Preserves-Preorder _)
  catch_up-Preserves (suc left) t next_fire =
      elim-Preserves (leb_ℤ next_fire tick_at) _ _
        (round-Preserves t next_fire _ (λ after. catch_up-Preserves left t after))
        (Keeps-pure Preserves-Preorder _)

  stored-ScheduleSound :
      (t : Task) (r : Result Caught) (tasks : List Task) (jobs : Jobs)
      → TasksSound tasks
      → IsValid jobs
      → ScheduleSound (store_next next_after tick_at now created t r tasks jobs).1
  stored-ScheduleSound t (ok c) tasks jobs h v = record {
    tasks = update-TasksSound (is_task t.name) (set_next c.next) tasks (λ n u. refl) (λ u e b. b) h;
    jobs = v;
  }
  stored-ScheduleSound t (err e) tasks jobs h v = record { tasks = h; jobs = v }

  fire_task-Keeps :
      (t : Task) → Keeps (Holds ScheduleSound) (fire_task next_after tick_at now created t)
  unfolding fire_task
  fire_task-Keeps t = record {
    at = λ s h.
        stored-ScheduleSound t _ s.tasks _ h.tasks
          ((catch_up-Preserves max_catchup_fires t t.next_fire_at).at s.jobs h.jobs);
  }

  fire_tasks-Keeps :
      (ts : List Task) → Keeps (Holds ScheduleSound) (fire_tasks next_after tick_at now created ts)
  unfolding fire_tasks
  fire_tasks-Keeps [] = Keeps-pure (Holds-Preorder ScheduleSound) _
  fire_tasks-Keeps (t ∷ ts) =
      Keeps-bind (Holds-Preorder ScheduleSound) _ _ (fire_task-Keeps t) (λ fires.
        Keeps-bind (Holds-Preorder ScheduleSound) _ _ (fire_tasks-Keeps ts)
          (λ rest. Keeps-pure (Holds-Preorder ScheduleSound) _))

  pub scheduler_tick-Keeps :
      Keeps (Holds ScheduleSound) (scheduler_tick next_after tick_at now created)
  unfolding scheduler_tick scheduler_tick_inner
  scheduler_tick-Keeps =
      Keeps-in_savepoint (Holds-Preorder ScheduleSound) _
        (record { at = λ s. (fire_tasks-Keeps _).at s })
