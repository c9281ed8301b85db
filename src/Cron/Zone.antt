-- ===== src/Cron/Zone.antt =====
-- The next boundary of a schedule expression: `next_after_unix_in_tz` and `next_after_unix`
-- (honker-core/src/cron.rs). A time zone of the crate chrono is a parameter, and the loop over the
-- local times that a zone leaves out is on fuel, as the search before it is.
pub mod Schedules
pub mod Next
pub mod Later
pub mod Refusals
pub mod Calls
use honker.Cron.Search.{cron_next_after_naive}
use honker.Action.{interval_overflow, Result, err, bad_timestamp, ok, no_boundary, panicked}
use honker.Base.Int.{in_i64, ℤ, ◌+ℤ◌, pos}
use honker.Cron.Expr.{CronSchedule, ScheduleExpr, parse_expr, cron, every}
use honker.Cron.Calendar.{plus, Calendar, date, last_time}
use honker.Base.{
  ℕ, zero, suc, ◌+◌, true, false, Option, none, some, List, leb, if◌then◌else◌, String,
}
use honker.Cron.Text.{codes}

-- `chrono::LocalResult`
pub data LocalResult {ℓ} (A : Type ℓ) : Type ℓ where
  nowhere : LocalResult A
  single : A → LocalResult A
  ambiguous : (earliest latest : A) → LocalResult A

-- `timestamp_opt`, as the local time it stands for, and `from_local_datetime`, as a timestamp.
pub record TimeZone : Type 0 where
  pub local_of : ℤ → LocalResult ℕ
  pub from_local : ℕ → LocalResult ℤ

abbrev pub earliest {ℓ} : {A : Type ℓ} → LocalResult A → Option A
earliest nowhere = none
earliest (single a) = some a
earliest (ambiguous a b) = some a

module _ (cal : Calendar) (tz : TimeZone) where
  unfoldable pub gap_loop : ℕ → ℕ → ℕ → Option (Result ℤ)
  gap_loop zero cap_year cand = none
  gap_loop (suc fuel) cap_year cand = elim (leb (cal.year (date cand)) cap_year) [
    | false ↦ some (err no_boundary)
    | true ↦ elim (earliest (tz.from_local cand)) [
      | some u ↦ some (ok u)
      | none ↦ elim (plus cal cand 1) [
        | err e ↦ some (err e)
        | ok next ↦ gap_loop fuel cap_year next
      ]
    ]
  ]

  abbrev pub leave_gap : ℕ → Option (Result ℕ) → Option (Result ℤ)
  leave_gap fuel none = none
  leave_gap fuel (some (err e)) = some (err e)
  leave_gap fuel (some (ok cand)) = gap_loop fuel (cal.year (date cand) + 100) cand

  -- The next boundary of a schedule after a local time, if the timestamp has one.
  abbrev pub after_local : ℕ → CronSchedule → Option ℕ → Option (Result ℤ)
  after_local fuel sched none = some (err bad_timestamp)
  after_local fuel sched (some local) = leave_gap fuel (cron_next_after_naive cal sched fuel local)

  -- `checked_add`
  abbrev pub add_interval : ℤ → ℕ → Result ℤ
  add_interval from_unix interval_s =
      if in_i64 (from_unix +ℤ pos interval_s)
      then ok (from_unix +ℤ pos interval_s)
      else err interval_overflow

  abbrev pub next_of : ℕ → ℤ → Result ScheduleExpr → Option (Result ℤ)
  next_of fuel from_unix (err e) = some (err e)
  next_of fuel from_unix (ok (every interval_s)) = some (add_interval from_unix interval_s)
  next_of fuel from_unix (ok (cron sched)) =
      after_local fuel sched (earliest (tz.local_of from_unix))

  unfoldable pub next_after_unix_in_tz : ℕ → List ℕ → ℤ → Option (Result ℤ)
  unfolding parse_expr gap_loop cron_next_after_naive
  next_after_unix_in_tz fuel expr from_unix = next_of fuel from_unix (parse_expr expr)

  abbrev pub or_stuck : Option (Result ℤ) → Result ℤ
  or_stuck none = err panicked
  or_stuck (some r) = r

  -- With more fuel than the calendar has seconds no search of it runs out.
  unfoldable pub next_after_unix : String → ℤ → Result ℤ
  unfolding next_after_unix_in_tz
  next_after_unix expr from_unix =
      or_stuck (next_after_unix_in_tz (suc (last_time cal)) (codes expr) from_unix)
