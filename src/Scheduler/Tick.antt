-- ===== src/Scheduler/Tick.antt =====
-- `scheduler_tick` (honker-core/src/honker_ops.rs): the jobs of all tasks that are due.
use honker.Scheduler.{Task, by_name, set_next, is_task}
use honker.Queue.Rows.{Jobs}
use honker.Base.Int.{ℤ, leb_ℤ}
use honker.Action.{pure, ok, Action, Result, in_savepoint, ◌>>◌, lift, err, ◌>>=◌}
use honker.Table.{update, order_by, select}
use honker.Queue.Submit.{enqueue_at, check_max_attempts}
use honker.Base.{ℕ, zero, suc, String, Bool, true, false, ◌&&◌, none, List, [], ◌∷◌, ◌++◌}

-- SCHEDULER_MAX_CATCHUP_FIRES
abbrev pub max_catchup_fires : ℕ
max_catchup_fires = 64

-- One object of the returned JSON array.
pub record Fire : Type 0 where
  pub name : String
  pub queue : String
  pub fire_at : ℤ
  pub job_id : ℕ

-- What the loop over one task's boundaries leaves: the next boundary, and the fires.
pub record Caught : Type 0 where
  pub next : ℤ
  pub fires : List Fire

pub record Schedule : Type 0 where
  pub tasks : List Task
  pub jobs : Jobs

-- The WHERE clause of TICK_DUE_SQL. Its SET changes nothing.
abbrev pub is_due_task : ℤ → Task → Bool
is_due_task tick_at t = t.enabled && leb_ℤ t.next_fire_at tick_at

abbrev pub fire_of : Task → ℤ → ℕ → Fire
fire_of t at job = record { name = t.name; queue = t.queue; fire_at = at; job_id = job }

abbrev pub fired : Fire → Caught → Caught
fired f c = record c { fires = f ∷ c.fires }

-- `now` is the reading that the tick makes once; `created i` is that of the column default in the
-- INSERT that makes row `i`.
module _ (next_after : String → ℤ → Result ℤ) (tick_at now : ℤ) (created : ℕ → ℤ) where
  abbrev pub submit_fire : Task → Action Jobs ℕ
  unfolding enqueue_at check_max_attempts
  submit_fire t = do
    check_max_attempts t.max_attempts
    (λ db.
        enqueue_at now (created db.next_id) t.queue t.payload none none t.priority t.max_attempts
          t.expires_s db)

  -- One round of the while loop; `go_on` is the rest of the loop.
  abbrev pub round : Task → ℤ → (ℤ → Action Jobs Caught) → Action Jobs Caught
  round t next go_on = do
    job ← submit_fire t
    after ← lift (next_after t.cron_expr next)
    caught ← go_on after
    pure (fired (fire_of t next job) caught)

  -- The backlog past the limit is skipped.
  abbrev pub skip_backlog : Task → Action Jobs Caught
  skip_backlog t = do
    after ← lift (next_after t.cron_expr tick_at)
    pure (record { next = after; fires = [] })

  -- The while loop, with the number of fires that the task has left in this tick.
  unfoldable pub catch_up : ℕ → Task → ℤ → Action Jobs Caught
  catch_up zero t next = elim (leb_ℤ next tick_at) [
    | true ↦ skip_backlog t
    | false ↦ pure (record { next = next; fires = [] })
  ]
  catch_up (suc left) t next = elim (leb_ℤ next tick_at) [
    | true ↦ round t next (λ after. catch_up left t after)
    | false ↦ pure (record { next = next; fires = [] })
  ]

  abbrev pub store_next : Task → Result Caught → List Task → Jobs → Result (List Fire) × Schedule
  store_next t (ok c) tasks jobs =
      (ok c.fires, record { tasks = update (is_task t.name) (set_next c.next) tasks; jobs = jobs })
  store_next t (err e) tasks jobs = (err e, record { tasks = tasks; jobs = jobs })

  unfoldable pub fire_task : Task → Action Schedule (List Fire)
  unfolding catch_up
  fire_task t s =
      let (r, jobs) = catch_up max_catchup_fires t t.next_fire_at s.jobs in
      store_next t r s.tasks jobs

  unfoldable pub fire_tasks : List Task → Action Schedule (List Fire)
  fire_tasks [] = pure []
  fire_tasks (t ∷ ts) = do fires ← fire_task t; rest ← fire_tasks ts; pure (fires ++ rest)

  unfoldable pub scheduler_tick_inner : Action Schedule (List Fire)
  scheduler_tick_inner s = fire_tasks (order_by by_name (select (is_due_task tick_at) s.tasks)) s

  unfoldable pub scheduler_tick : Action Schedule (List Fire)
  scheduler_tick = in_savepoint scheduler_tick_inner
