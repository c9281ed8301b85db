-- ===== src/Cron/Search/Days.antt =====
-- Days of a calendar in the search: how `make_dt` finds them again (honker-core/src/cron.rs).
use honker.Cron.Calendar.{Calendar, IsCalendar, date_key, date, last_time, make_dt, plus}
use honker.Action.{ok}
use honker.Cron.Expr.{CronSchedule}
use honker.Cron.Search.{same_day}
use honker.Base.{ℕ, ◌+◌, ◌*◌, ◌≤◌, ◌<◌, ◌≡◌, inl, inr, arith, ltb, Bool-cases}

module _ (cal : Calendar) (laws : IsCalendar cal) where
  pub date_key_mono : (d e : ℕ) → d ≤ e → date_key cal d ≤ date_key cal e
  date_key_mono d e h = elim (Bool-cases (ltb d e)) [
    | inl k ↦ let j = laws.increasing d e (ground (arith, k)) in omega (arith, j)
    | inr k ↦ let j : d ≡ e = ground (arith, k) in rw j (omega arith)
  ]

  -- A time whose year is not the last one has a day after it.
  pub date_room : (t : ℕ) → cal.year (date t) < cal.year cal.last_day → date t < cal.last_day
  date_room t h = elim (Bool-cases (ltb (date t) cal.last_day)) [
    | inl k ↦ ground (arith, k)
    | inr k ↦
        let j = date_key_mono cal.last_day (date t) (ground (arith, k)) in
        absurd (
          omega (
            arith,
            j,
            h,
            laws.month_bounds (date t),
            laws.month_bounds cal.last_day,
            laws.day_bounds (date t),
            laws.day_bounds cal.last_day,
          ))
  ]

  pub same_day_eq :
      (sched : CronSchedule) (t h mi s : ℕ)
      → date t ≤ cal.last_day
      → h < 24
      → mi < 60
      → s < 60
      → same_day cal sched t h mi s ≡ ok (date t * 86400 + h * 3600 + mi * 60 + s)
  unfolding make_dt
  same_day_eq sched t h mi s l a b c = rw (laws.from_fields (date t) l) (ground (arith, a, b, c))

  pub plus_eq : (t n : ℕ) → t + n ≤ last_time cal → plus cal t n ≡ ok (t + n)
  plus_eq t n h = ground (arith, h)
