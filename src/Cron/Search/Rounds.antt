-- ===== src/Cron/Search/Rounds.antt =====
-- A round of the search ends with a time that matches, or goes on later
-- (honker-core/src/cron.rs, `cron_next_after_naive`).
use honker.Cron.Search.{round, matches, go_on, cron_day_matches, found, onward}
use honker.Action.{ok, Result}
use honker.Cron.Expr.{CronSchedule}
use honker.Cron.Calendar.{date, last_time, IsCalendar, Calendar, minute, second, hour}
use honker.Cron.Field.{member}
use honker.Cron.Search.Months.{skip_month-Passes}
use honker.Cron.Search.Skips.{
  IsSchedule, skip_day-Passes, Passes, NoneIn, skip_minute-Passes, skip_second-Passes,
  skip_hour-Passes,
}
use honker.Base.{ℕ, ◌≤◌, ◌<◌, ◌≡◌, ap, ◌∙◌, ◌⊎◌, inl, inr, true, Bool-cases, arith}

module _ (cal : Calendar) (laws : IsCalendar cal) (sched : CronSchedule) (valid : IsSchedule sched)
    (c : ℕ) (year_left : cal.year (date c) < cal.year cal.last_day) where
  abbrev pub Moves : Type 0
  Moves =
      (t : ℕ) × (round cal sched c ≡ ok (go_on t))
      × (c < t)
      × NoneIn cal sched c t
      × (t ≤ last_time cal)

  moves : {r : Result ℕ} → Passes cal sched c r → round cal sched c ≡ onward cal sched r → Moves
  moves p e = (p.target, e ∙ ap (onward cal sched) p.is_target, p.later, p.passed, p.within)

  -- A round finds its time, which matches, or moves on over times that do not.
  pub round_cases : ((round cal sched c ≡ ok (found c)) × (matches cal sched c ≡ true)) ⊎ Moves
  round_cases = elim (Bool-cases (member sched.months (cal.month (date c)))) [
    | inr e ↦ inr (
        moves (skip_month-Passes cal laws sched valid c year_left e)
          (unfold round in ground (arith, e)))
    | inl e1 ↦ elim (Bool-cases (cron_day_matches cal sched c)) [
      | inr e ↦ inr (
          moves (skip_day-Passes cal laws sched valid c year_left e)
            (unfold round in ground (arith, e1, e)))
      | inl e2 ↦ elim (Bool-cases (member sched.hours (hour c))) [
        | inr e ↦ inr (
            moves (skip_hour-Passes cal laws sched valid c year_left e)
              (unfold round in ground (arith, e1, e2, e)))
        | inl e3 ↦ elim (Bool-cases (member sched.minutes (minute c))) [
          | inr e ↦ inr (
              moves (skip_minute-Passes cal laws sched valid c year_left e)
                (unfold round in ground (arith, e1, e2, e3, e)))
          | inl e4 ↦ elim (Bool-cases (member sched.seconds (second c))) [
            | inr e ↦ inr (
                moves (skip_second-Passes cal laws sched valid c year_left e)
                  (unfold round in ground (arith, e1, e2, e3, e4, e)))
            | inl e5 ↦ inl (unfold round in ground (arith, e1, e2, e3, e4, e5))
          ]
        ]
      ]
    ]
  ]
