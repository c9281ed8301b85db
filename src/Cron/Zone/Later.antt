-- ===== src/Cron/Zone/Later.antt =====
-- When the next boundary is later than the time asked for (honker-core/src/cron.rs).
use honker.Cron.Zone.{next_after_unix_in_tz, earliest, TimeZone}
use honker.Action.{ok}
use honker.Base.Int.{◌<ℤ◌, ◌≤ℤ◌, leb_ℤ, ℤ}
use honker.Cron.Expr.{CronSchedule, cron, parse_expr}
use honker.Cron.Calendar.{IsCalendar, date, last_time, Calendar}
use honker.Cron.Zone.Next.{Answers, next_after_unix_in_tz-Answers}
use honker.Base.{ℕ, ◌+◌, ◌≤◌, ◌<◌, ◌≡◌, subst, inl, inr, some, List, arith, Bool-cases}

-- A zone reads back the local time of every timestamp that it gives for one.
pub record IsTimeZone (tz : TimeZone) : Type 0 where
  pub reads_back :
      (t : ℕ) (u : ℤ) → earliest (tz.from_local t) ≡ some u → earliest (tz.local_of u) ≡ some t

-- No time up to `from_unix` had a later local time than `local`, so that the clock was not set back
-- to it.
abbrev pub NotRepeated : TimeZone → ℤ → ℕ → Type 0
NotRepeated tz from_unix local =
    (u : ℤ) (t : ℕ) → u ≤ℤ from_unix → earliest (tz.local_of u) ≡ some t → t ≤ local

-- The next boundary is strictly after the time asked for, if the expression is an interval, or if at
-- that time the zone's clock does not repeat an hour.
pub next_after_unix_in_tz_later :
    (cal : Calendar) (tz : TimeZone) (fuel : ℕ) (expr : List ℕ) (from_unix u : ℤ)
    (sched : CronSchedule) (local : ℕ)
    → IsCalendar cal
    → IsTimeZone tz
    → parse_expr expr ≡ ok (cron sched)
    → earliest (tz.local_of from_unix) ≡ some local
    → cal.year (date (local + 1)) + 200 < cal.year cal.last_day
    → last_time cal < fuel
    → NotRepeated tz from_unix local
    → next_after_unix_in_tz cal tz fuel expr from_unix ≡ some (ok u)
    → from_unix <ℤ u
next_after_unix_in_tz_later cal tz fuel expr from_unix u sched local laws zone parsed here room
      enough once e =
    let b = subst (Answers cal tz sched local) e (
      next_after_unix_in_tz-Answers cal tz fuel expr from_unix sched local laws parsed here room
        enough) in
    let l = b.lands in
    elim (Bool-cases (leb_ℤ u from_unix)) [
      | inl k ↦
          let early = once u l.local (ground (arith, k)) (zone.reads_back l.local u l.is_time) in
          absurd (omega (arith, early, b.after, l.from_here))
      | inr k ↦ ground (arith, k)
    ]
