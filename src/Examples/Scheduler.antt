-- ===== src/Examples/Scheduler.antt =====
-- A schedule that fires once a minute.
use Prim.Native.Nat.{min}
use honker.Scheduler.Done.{scheduler_tick_done, AllCaughtUp}
use honker.Scheduler.{Task, new_task, scheduler_soonest, set_enabled, scheduler_register, by_name}
use honker.Scheduler.Tick.{
  Schedule, Fire, scheduler_tick, is_due_task, fire_task, catch_up, scheduler_tick_inner,
  fire_tasks,
}
use honker.Queue.Valid.{empty}
use honker.Action.{ok, Result, in_savepoint, Action}
use honker.Base.Int.{ℤ, pos, ◌+ℤ◌, ◌≤ℤ◌, ◌<ℤ◌, pos_part, ◌-ℤ◌}
use honker.Table.{count_if, insert, order_by, select}
use honker.Queue.Submit.{new_row, enqueue_at, check_max_attempts}
use honker.Base.{
  ℕ, ◌+◌, ◌*◌, ◌≤◌, String, ◌≡◌, refl, none, List, [], ◌∷◌, arith, length, All, false, ◌-◌,
}
use honker.Queue.Deadline.{least}
use honker.Client.Subscription.{next}
use honker.Client.Leader.{Site}
use honker.Client.Leader.Wait.{leader_wait, leader_wait-in_time, nanos_per_second, heartbeat_nanos}

-- Every schedule fires once a minute, counted from the time that is asked about.
abbrev each_minute : String → ℤ → Result ℤ
each_minute expr t = ok (t +ℤ pos 60)

each_minute_later : (expr : String) (u : ℤ) → each_minute expr (pos 100) ≡ ok u → pos 100 <ℤ u
unfolding ◌+ℤ◌
each_minute_later expr u h = ground (arith, h)

abbrev minutely : ℤ → Task
minutely next = new_task "tick" "mail" "@every 60s" "x" (pos 0) none (pos 3) next

abbrev one_task_due : Schedule
one_task_due = record { tasks = minutely (pos 90) ∷ []; jobs = empty }

abbrev one_fire : List Fire
one_fire = record { name = "tick"; queue = "mail"; fire_at = pos 90; job_id = 1 } ∷ []

abbrev after_fire : Schedule
after_fire = record {
  tasks = minutely (pos 150) ∷ [];
  jobs = record {
    live = new_row 1 (pos 100) (pos 100) "mail" "x" none none (pos 0) (pos 3) none ∷ [];
    dead = [];
    next_id = 2;
  };
}

ticks :
    scheduler_tick each_minute (pos 100) (pos 100) (λ i. pos 100) one_task_due
    ≡ (ok one_fire, after_fire)
unfolding scheduler_tick scheduler_tick_inner in_savepoint fire_tasks fire_task catch_up enqueue_at
    check_max_attempts order_by insert new_row ◌+ℤ◌
ticks = refl

scheduler_tick_done_example :
    (count_if (is_due_task (pos 100)) after_fire.tasks ≡ 0)
    × (length one_fire ≤ 64 * count_if (is_due_task (pos 100)) one_task_due.tasks)
    × All (λ (f : Fire). f.fire_at ≤ℤ pos 100) one_fire
    × AllCaughtUp each_minute
        (pos 100)
        (order_by by_name (select (is_due_task (pos 100)) one_task_due.tasks))
        one_fire
    × (length after_fire.jobs.live ≡ length one_task_due.jobs.live + length one_fire)
scheduler_tick_done_example =
    scheduler_tick_done each_minute (pos 100) (pos 100) (λ i. pos 100) each_minute_later
      one_task_due after_fire one_fire ticks

soonest : scheduler_soonest after_fire.tasks ≡ ok (pos 150)
unfolding scheduler_soonest least
soonest = refl

abbrev led_site : Site
led_site = record { locks = []; schedule = after_fire; ready = [] }

-- Ten seconds before the boundary, the leader waits ten seconds.
leader_wait-in_time_example :
    (leader_wait false 5 (pos 140) led_site ≡ (
      ok (min (heartbeat_nanos - 5) (pos_part (pos 150 -ℤ pos 140) * nanos_per_second)),
      led_site,
    ))
    × (min (heartbeat_nanos - 5) (pos_part (pos 150 -ℤ pos 140) * nanos_per_second)
        ≤ pos_part (pos 151 -ℤ pos 140) * nanos_per_second)
leader_wait-in_time_example =
    leader_wait-in_time 5 (pos 140) (pos 150) (pos 151) led_site soonest (omega arith) (omega arith)

abbrev two_tasks : List Task
two_tasks =
    set_enabled false (minutely (pos 90))
    ∷ new_task "other" "mail" "@every 60s" "y" (pos 0) none (pos 3) (pos 95)
    ∷ []

abbrev register_tick : Action (List Task) ℕ
register_tick =
    scheduler_register each_minute "tick" "q" "@every 60s" "z" (pos 1) none (pos 2) (pos 100)
