-- ===== src/Client/Leader/Wait.antt =====
-- The wait of `Scheduler::leader_loop` (packages/honker-rs/src/lib.rs), in nanoseconds.
use Prim.Native.Nat.{min}
use honker.Base.{
  ℕ, ◌-◌, ◌*◌, ◌≤◌, ◌<◌, ◌≡◌, refl, arith, ltb, Bool, false, if◌then◌else◌, inl, inr, List, map,
  Bool-cases,
}
use honker.Base.Int.{ℤ, pos, ◌-ℤ◌, ◌<ℤ◌, -ℤ_parts, pos_part, ltb_ℤ, leb_ℤ, ◌≤ℤ◌}
use honker.Action.{ok, Action, ◌>>=◌, pure}
use honker.Client.{with_conn}
use honker.Client.Leader.{Site}
use honker.Table.{count_if, select}
use honker.Scheduler.{scheduler_soonest, is_enabled, Task}
use honker.Scheduler.Tick.{is_due_task}
use honker.Queue.Deadline.{least}
use honker.Queue.Deadline.Wait.{least-Later}
use honker.Scheduler.Wake.{soonest-Later}

abbrev pub nanos_per_second : ℕ
nanos_per_second = 1000000000

-- `HEARTBEAT` of `Scheduler::run`: 20 seconds.
abbrev pub heartbeat_nanos : ℕ
heartbeat_nanos = 20 * nanos_per_second

unfoldable pub until_soonest : ℤ → ℤ → ℕ
until_soonest soonest now =
    if leb_ℤ soonest now then 0 else pos_part (soonest -ℤ now) * nanos_per_second

abbrev pub earlier : ℕ → ℕ → ℕ
earlier until_soonest wait_for = if ltb until_soonest wait_for then until_soonest else wait_for

-- `elapsed` is the time from the renewal to the end of the tick.
unfoldable pub wait_for : ℕ → ℤ → ℤ → ℕ
wait_for elapsed soonest now =
    if ltb_ℤ (pos 0) soonest
    then earlier (until_soonest soonest now) (heartbeat_nanos - elapsed)
    else heartbeat_nanos - elapsed

abbrev pub soonest_call : Action Site ℤ
soonest_call x = (scheduler_soonest x.schedule.tasks, x)

unfoldable pub leader_wait : Bool → ℕ → ℤ → Action Site ℕ
leader_wait down elapsed now = do
  soonest ← with_conn down soonest_call
  pure (wait_for elapsed soonest now)

wait_for_lem :
    (elapsed : ℕ) (t now u : ℤ)
    → pos 0 <ℤ t
    → t ≤ℤ u
    → (wait_for elapsed t now
        ≡ min (heartbeat_nanos - elapsed) (pos_part (t -ℤ now) * nanos_per_second))
      × (wait_for elapsed t now ≤ pos_part (u -ℤ now) * nanos_per_second)
unfolding wait_for until_soonest
wait_for_lem elapsed t now u p h = ground (arith, p, h, -ℤ_parts t now, -ℤ_parts u now)

-- Where a task is due, the soonest boundary is not later.
soonest-le_due :
    (tasks : List Task) (t u : ℤ)
    → scheduler_soonest tasks ≡ ok t
    → 0 < count_if (is_due_task u) tasks
    → t ≤ℤ u
unfolding scheduler_soonest
soonest-le_due tasks t u h due = elim (Bool-cases (leb_ℤ t u)) [
  | inl c ↦ ground (arith, c)
  | inr c ↦ absurd (
      omega (
        arith,
        due,
        least-Later is_enabled (λ (r : Task). r.next_fire_at) u tasks
            (soonest-Later (least (map (λ (r : Task). r.next_fire_at) (select is_enabled tasks))) t
              u h (ground (arith, c))),
      ))
]

-- Where the soonest boundary of the enabled tasks is `t`, a positive time, and the call that asks for it
-- does not fail: the leader waits exactly as long as is left of its heartbeat of 20 seconds, of which
-- `elapsed` nanoseconds had passed after the tick, or from its reading of the clock, `now`, until `t`
-- where that is sooner. So it never waits longer than from `now` until a time `u` at which some task is
-- due. The call changes no table.
pub leader_wait-in_time :
    (elapsed : ℕ) (now t u : ℤ) (x : Site)
    → scheduler_soonest x.schedule.tasks ≡ ok t
    → pos 0 <ℤ t
    → 0 < count_if (is_due_task u) x.schedule.tasks
    → (leader_wait false elapsed now x
        ≡ (ok (min (heartbeat_nanos - elapsed) (pos_part (t -ℤ now) * nanos_per_second)), x))
      × (min (heartbeat_nanos - elapsed) (pos_part (t -ℤ now) * nanos_per_second)
          ≤ pos_part (u -ℤ now) * nanos_per_second)
unfolding leader_wait
leader_wait-in_time elapsed now t u x h p due =
    let (exact, bound) =
      wait_for_lem elapsed t now u p (soonest-le_due x.schedule.tasks t u h due) in
    (rw (h, exact) refl, rw exact at bound)
