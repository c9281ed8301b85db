-- ===== src/Cron/Search.antt =====
-- The search for the next time of a schedule: `CronSchedule::matches`, `cron_day_matches`,
-- `next_or_first` and `cron_next_after_naive` (honker-core/src/cron.rs). The loop is on fuel, and `none`
-- says that the fuel is used up.
pub mod NextOrFirst
pub mod Days
pub mod Skips
pub mod Months
pub mod Rounds
pub mod Least
use honker.Action.{Result, ok, err, panicked, no_boundary}
use honker.Cron.Expr.{CronSchedule}
use honker.Cron.Field.{◌>>=◌, member}
use honker.Cron.Calendar.{
  second, minute, plus, hour, wed, sat, make_dt, Calendar, tue, date, thu, fri, Weekday, mon, sun,
}
use honker.Base.{
  ℕ, zero, suc, ◌+◌, Bool, true, false, not, ◌&&◌, Option, none, some, List, [], ◌∷◌, leb,
  if◌then◌else◌,
}

abbrev pub cron_dow : Weekday → ℕ
cron_dow sun = 0
cron_dow mon = 1
cron_dow tue = 2
cron_dow wed = 3
cron_dow thu = 4
cron_dow fri = 5
cron_dow sat = 6

-- `set.range(current..).next()`
abbrev pub first_from : List ℕ → ℕ → Option ℕ
first_from [] current = none
first_from (x ∷ xs) current =
    let rest = first_from xs current in if leb current x then some x else rest

abbrev pub or_first : List ℕ → Option ℕ → Result (ℕ × Bool)
or_first set (some v) = ok (v, false)
or_first (x ∷ xs) none = ok (x, true)
or_first [] none = err panicked

unfoldable pub next_or_first : List ℕ → ℕ → Result (ℕ × Bool)
next_or_first set current = or_first set (first_from set current)

-- How a round of the loop ends.
pub data Round : Type 0 where
  found : ℕ → Round
  go_on : ℕ → Round

module _ (cal : Calendar) (sched : CronSchedule) where
  abbrev pub cron_day_matches : ℕ → Bool
  cron_day_matches t =
      member sched.days (cal.day (date t)) && member sched.dows (cron_dow (cal.weekday (date t)))

  abbrev pub matches : ℕ → Bool
  matches t =
      member sched.seconds (second t)
      && member sched.minutes (minute t)
      && member sched.hours (hour t)
      && member sched.days (cal.day (date t))
      && member sched.months (cal.month (date t))
      && member sched.dows (cron_dow (cal.weekday (date t)))

  -- `make_dt` on the date of a time.
  abbrev pub same_day : ℕ → ℕ → ℕ → ℕ → Result ℕ
  same_day t h mi s = make_dt cal (cal.year (date t)) (cal.month (date t)) (cal.day (date t)) h mi s

  unfoldable pub skip_month : ℕ → Result ℕ
  unfolding next_or_first make_dt
  skip_month cand = next_or_first sched.months (cal.month (date cand)) >>= λ q.
      make_dt cal (if q.1 then cal.year (date cand) + 1 else cal.year (date cand)) q.0 1 0 0 0

  unfoldable pub skip_day : ℕ → Result ℕ
  unfolding make_dt
  skip_day cand = same_day cand 0 0 0 >>= λ t. plus cal t 86400

  unfoldable pub skip_hour : ℕ → Result ℕ
  unfolding next_or_first make_dt
  skip_hour cand = next_or_first sched.hours (hour cand) >>= λ q.
      if q.1
      then (same_day cand 0 0 0 >>= λ t. plus cal t 86400 >>= λ next. same_day next q.0 0 0)
      else same_day cand q.0 0 0

  unfoldable pub skip_minute : ℕ → Result ℕ
  unfolding next_or_first make_dt
  skip_minute cand = next_or_first sched.minutes (minute cand) >>= λ q.
      if q.1
      then (same_day cand (hour cand) 0 0 >>= λ t.
          plus cal t 3600 >>= λ next. same_day next (hour next) q.0 0)
      else same_day cand (hour cand) q.0 0

  unfoldable pub skip_second : ℕ → Result ℕ
  unfolding next_or_first make_dt
  skip_second cand = next_or_first sched.seconds (second cand) >>= λ q.
      if q.1
      then (same_day cand (hour cand) (minute cand) 0 >>= λ t.
          plus cal t 60 >>= λ next. same_day next (hour next) (minute next) q.0)
      else same_day cand (hour cand) (minute cand) q.0

  abbrev pub onward : Result ℕ → Result Round
  onward r = r >>= λ t. ok (go_on t)

  -- The body of the loop.
  unfoldable pub round : ℕ → Result Round
  round cand =
      if not (member sched.months (cal.month (date cand)))
      then onward (skip_month cand)
      else if not (cron_day_matches cand)
      then onward (skip_day cand)
      else if not (member sched.hours (hour cand))
      then onward (skip_hour cand)
      else if not (member sched.minutes (minute cand))
      then onward (skip_minute cand)
      else if not (member sched.seconds (second cand))
      then onward (skip_second cand)
      else if matches cand
      then ok (found cand)
      else onward (plus cal cand 1)

  unfoldable pub search_loop : ℕ → ℕ → ℕ → Option (Result ℕ)
  unfolding round
  search_loop zero cap_year cand = none
  search_loop (suc fuel) cap_year cand = elim (leb (cal.year (date cand)) cap_year) [
    | false ↦ some (err no_boundary)
    | true ↦ elim (round cand) [
      | err e ↦ some (err e)
      | ok (found t) ↦ some (ok t)
      | ok (go_on t) ↦ search_loop fuel cap_year t
    ]
  ]

  abbrev begin_search : ℕ → Result ℕ → Option (Result ℕ)
  begin_search fuel (err e) = some (err e)
  begin_search fuel (ok cand) = search_loop fuel (cal.year (date cand) + 100) cand

  unfoldable pub cron_next_after_naive : ℕ → ℕ → Option (Result ℕ)
  unfolding search_loop
  cron_next_after_naive fuel from = begin_search fuel (plus cal from 1)
