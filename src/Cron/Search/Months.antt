-- ===== src/Cron/Search/Months.antt =====
-- The move of the search to the next month of a schedule (honker-core/src/cron.rs).
use honker.Cron.Search.{skip_month}
use honker.Action.{ok}
use honker.Cron.Expr.{CronSchedule}
use honker.Cron.Calendar.{date, make_dt, Calendar, IsCalendar}
use honker.Cron.Field.{member}
use honker.Cron.Search.Days.{date_key_mono}
use honker.Cron.Search.NextOrFirst.{next_or_first_cases}
use honker.Cron.Search.Skips.{Passes, IsSchedule}
use honker.Base.{ℕ, ◌+◌, ◌*◌, ◌≤◌, ◌<◌, ◌≡◌, refl, ap, inl, inr, false, arith, ltb, Bool-cases, leb}

module _ (cal : Calendar) (laws : IsCalendar cal) (sched : CronSchedule) (valid : IsSchedule sched)
    (c : ℕ) (year_left : cal.year (date c) < cal.year cal.last_day) where
  -- The first day of a month that comes after a time's month.
  from_first :
      (y m : ℕ)
      → 1 ≤ m
      → m ≤ 12
      → y ≤ cal.year cal.last_day
      → cal.year (date c) * 12 + cal.month (date c) < y * 12 + m
      → (d : ℕ) × (make_dt cal y m 1 0 0 0 ≡ ok (d * 86400))
        × (date c < d)
        × (d ≤ cal.last_day)
        × ((e : ℕ) → e < d → cal.year e * 12 + cal.month e < y * 12 + m)
  unfolding make_dt
  from_first y m a b l h =
      let (d, e) = laws.first_of_month y m a b l in
      let (ey, em, ed, el) = laws.fields_of y m 1 d e in
      let after : date c < d = elim (Bool-cases (ltb (date c) d)) [
        | inl k ↦ ground (arith, k)
        | inr k ↦
            let j = date_key_mono cal laws d (date c) (ground (arith, k)) in
            absurd (omega (arith, j, ey, em, ed, h, laws.day_bounds (date c)))
      ] in
      (
        d,
        rw e (ap ok (omega arith)),
        after,
        el,
        λ f k. let j = laws.increasing f d k in omega (arith, j, ey, em, ed, laws.day_bounds f),
      )

  no_earlier :
      (t : ℕ)
      → c ≤ t
      → cal.year (date c) * 12 + cal.month (date c) ≤ cal.year (date t) * 12 + cal.month (date t)
  no_earlier t h =
      let j = date_key_mono cal laws (date c) (date t) (omega (arith, h)) in
      omega (arith, j, laws.day_bounds (date c), laws.day_bounds (date t))

  pub skip_month-Passes :
      member sched.months (cal.month (date c)) ≡ false → Passes cal sched c (skip_month cal sched c)
  unfolding skip_month
  skip_month-Passes h =
      let here = laws.month_bounds (date c) in
      let (v, m, l, u, r) =
        next_or_first_cases 1 12 sched.months (cal.month (date c)) valid.months h in
      elim r [
        | inl n ↦
            let (d, e, a, b, k) =
              from_first (cal.year (date c)) v l u (omega (arith, year_left))
                (omega (arith, n.ahead)) in
            record {
              target = d * 86400;
              is_target = rw (n.is_next, e) refl;
              later = omega (arith, a);
              passed = λ t p q.
                  let i = no_earlier t p in
                  let j = k (date t) (omega (arith, q)) in
                  let there = laws.month_bounds (date t) in
                  let skip =
                    n.skips (cal.month (date t)) (omega (arith, i, j, u, here, there))
                      (omega (arith, i, j, u, here, there)) in
                  ground (arith, skip);
              within = omega (arith, b);
            }
        | inr n ↦
            let (d, e, a, b, k) =
              from_first (cal.year (date c) + 1) v l u (omega (arith, year_left))
                (omega (arith, here, l)) in
            record {
              target = d * 86400;
              is_target = rw (n.is_next, e) refl;
              later = omega (arith, a);
              passed = λ t p q.
                  let i = no_earlier t p in
                  let j = k (date t) (omega (arith, q)) in
                  let there = laws.month_bounds (date t) in
                  elim (Bool-cases (leb (cal.month (date c)) (cal.month (date t)))) [
                    | inl g ↦ ground (arith, n.none_left (cal.month (date t)) (ground (arith, g)))
                    | inr g ↦
                        let g' : cal.month (date t) < cal.month (date c) = ground (arith, g) in
                        ground (
                          arith,
                          n.skips (cal.month (date t)) (omega arith)
                              (omega (arith, g', i, j, u, here, there)),
                        )
                  ];
              within = omega (arith, b);
            }
      ]
