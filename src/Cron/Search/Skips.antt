-- ===== src/Cron/Search/Skips.antt =====
-- The moves of the search go on past times that the schedule does not match, and past no other
-- (honker-core/src/cron.rs, `cron_next_after_naive`).
use honker.Cron.Search.{cron_day_matches, skip_hour, matches, skip_day, skip_second, skip_minute}
use honker.Action.{ok, Result}
use honker.Cron.Expr.{CronSchedule}
use honker.Cron.Calendar.{IsCalendar, date, last_time, Calendar, hour, second, minute}
use honker.Cron.Field.{member}
use honker.Cron.Search.Days.{same_day_eq, plus_eq, date_room}
use honker.Cron.Field.Meaning.{IsFieldSet}
use honker.Base.{ℕ, ◌+◌, ◌*◌, ◌≤◌, ◌<◌, ◌≡◌, refl, false, arith, inl, inr, Bool-cases, ltb}
use honker.Cron.Search.NextOrFirst.{next_or_first_cases}

-- Each field of the schedule is a set that its field of the expression can stand for.
pub record IsSchedule (sched : CronSchedule) : Type 0 where
  pub seconds : IsFieldSet 0 59 sched.seconds
  pub minutes : IsFieldSet 0 59 sched.minutes
  pub hours : IsFieldSet 0 23 sched.hours
  pub days : IsFieldSet 1 31 sched.days
  pub months : IsFieldSet 1 12 sched.months
  pub dows : IsFieldSet 0 6 sched.dows

module _ (cal : Calendar) (sched : CronSchedule) where
  -- No time from `a` up to before `b` matches.
  abbrev pub NoneIn : ℕ → ℕ → Type 0
  NoneIn a b = (t : ℕ) → a ≤ t → t < b → matches cal sched t ≡ false

  -- A move from a time to a later one, over times that do not match.
  pub record Passes (c : ℕ) (r : Result ℕ) : Type 0 where
    pub target : ℕ
    pub is_target : r ≡ ok target
    pub later : c < target
    pub passed : NoneIn c target
    pub within : target ≤ last_time cal

module _ (cal : Calendar) (laws : IsCalendar cal) (sched : CronSchedule) (valid : IsSchedule sched)
    (c : ℕ) (year_left : cal.year (date c) < cal.year cal.last_day) where
  pub skip_day-Passes :
      cron_day_matches cal sched c ≡ false → Passes cal sched c (skip_day cal sched c)
  unfolding skip_day
  skip_day-Passes h =
      let inside = date_room cal laws c year_left in
      let there =
        same_day_eq cal laws sched c 0 0 0 (omega (arith, inside)) (omega arith) (omega arith)
          (omega arith) in
      let on =
        plus_eq cal laws (date c * 86400 + 0 * 3600 + 0 * 60 + 0) 86400 (omega (arith, inside)) in
      record {
        target = date c * 86400 + 0 * 3600 + 0 * 60 + 0 + 86400;
        is_target = rw (there, on) refl;
        later = omega arith;
        passed =
            λ t a b. let same : date t ≡ date c = omega (arith, a, b) in ground (arith, same, h);
        within = omega (arith, inside);
      }

  pub skip_hour-Passes :
      member sched.hours (hour c) ≡ false → Passes cal sched c (skip_hour cal sched c)
  unfolding skip_hour
  skip_hour-Passes h =
      let inside = date_room cal laws c year_left in
      let (v, m, l, u, r) = next_or_first_cases 0 23 sched.hours (hour c) valid.hours h in
      elim r [
        | inl n ↦
            let there =
              same_day_eq cal laws sched c v 0 0 (omega (arith, inside)) (omega (arith, u))
                (omega (arith, u)) (omega (arith, u)) in
            record {
              target = date c * 86400 + v * 3600 + 0 * 60 + 0;
              is_target = rw (n.is_next, there) refl;
              later = omega (arith, n.ahead);
              passed = λ t a b.
                  ground
                    (arith, n.skips (hour t) (omega (arith, a, b, u)) (omega (arith, a, b, u)));
              within = omega (arith, inside, u);
            }
        | inr n ↦
            let start = date c * 86400 + 0 * 3600 + 0 * 60 + 0 in
            let next = start + 86400 in
            let there =
              same_day_eq cal laws sched c 0 0 0 (omega (arith, inside)) (omega arith) (omega arith)
                (omega arith) in
            let on = plus_eq cal laws start 86400 (omega (arith, inside)) in
            let again =
              same_day_eq cal laws sched next v 0 0 (omega (arith, inside)) (omega (arith, u))
                (omega (arith, u)) (omega (arith, u)) in
            record {
              target = date next * 86400 + v * 3600 + 0 * 60 + 0;
              is_target = rw (n.is_next, there, on, again) refl;
              later = omega arith;
              passed = λ t a b. elim (Bool-cases (ltb t next)) [
                | inl k ↦
                    let k' : t < next = ground (arith, k) in
                    ground (arith, n.none_left (hour t) (omega (arith, a, k')))
                | inr k ↦
                    let k' : next ≤ t = ground (arith, k) in
                    ground (arith, n.skips (hour t) (omega arith) (omega (arith, b, k', u)))
              ];
              within = omega (arith, inside, u);
            }
      ]

  pub skip_minute-Passes :
      member sched.minutes (minute c) ≡ false → Passes cal sched c (skip_minute cal sched c)
  unfolding skip_minute
  skip_minute-Passes h =
      let inside = date_room cal laws c year_left in
      let (v, m, l, u, r) = next_or_first_cases 0 59 sched.minutes (minute c) valid.minutes h in
      elim r [
        | inl n ↦
            let there =
              same_day_eq cal laws sched c (hour c) v 0 (omega (arith, inside)) (omega (arith, u))
                (omega (arith, u)) (omega (arith, u)) in
            record {
              target = date c * 86400 + hour c * 3600 + v * 60 + 0;
              is_target = rw (n.is_next, there) refl;
              later = omega (arith, n.ahead);
              passed = λ t a b.
                  ground
                    (arith, n.skips (minute t) (omega (arith, a, b, u)) (omega (arith, a, b, u)));
              within = omega (arith, inside, u);
            }
        | inr n ↦
            let start = date c * 86400 + hour c * 3600 + 0 * 60 + 0 in
            let next = start + 3600 in
            let there =
              same_day_eq cal laws sched c (hour c) 0 0 (omega (arith, inside)) (omega arith)
                (omega arith) (omega arith) in
            let on = plus_eq cal laws start 3600 (omega (arith, inside)) in
            let again =
              same_day_eq cal laws sched next (hour next) v 0 (omega (arith, inside))
                (omega (arith, u)) (omega (arith, u)) (omega (arith, u)) in
            record {
              target = date next * 86400 + hour next * 3600 + v * 60 + 0;
              is_target = rw (n.is_next, there, on, again) refl;
              later = omega arith;
              passed = λ t a b. elim (Bool-cases (ltb t next)) [
                | inl k ↦
                    let k' : t < next = ground (arith, k) in
                    ground (arith, n.none_left (minute t) (omega (arith, a, k')))
                | inr k ↦
                    let k' : next ≤ t = ground (arith, k) in
                    ground (arith, n.skips (minute t) (omega arith) (omega (arith, b, k', u)))
              ];
              within = omega (arith, inside, u);
            }
      ]

  pub skip_second-Passes :
      member sched.seconds (second c) ≡ false → Passes cal sched c (skip_second cal sched c)
  unfolding skip_second
  skip_second-Passes h =
      let inside = date_room cal laws c year_left in
      let (v, m, l, u, r) = next_or_first_cases 0 59 sched.seconds (second c) valid.seconds h in
      elim r [
        | inl n ↦
            let there =
              same_day_eq cal laws sched c (hour c) (minute c) v (omega (arith, inside))
                (omega (arith, u)) (omega (arith, u)) (omega (arith, u)) in
            record {
              target = date c * 86400 + hour c * 3600 + minute c * 60 + v;
              is_target = rw (n.is_next, there) refl;
              later = omega (arith, n.ahead);
              passed = λ t a b.
                  ground
                    (arith, n.skips (second t) (omega (arith, a, b, u)) (omega (arith, a, b, u)));
              within = omega (arith, inside, u);
            }
        | inr n ↦
            let start = date c * 86400 + hour c * 3600 + minute c * 60 + 0 in
            let next = start + 60 in
            let there =
              same_day_eq cal laws sched c (hour c) (minute c) 0 (omega (arith, inside))
                (omega arith) (omega arith) (omega arith) in
            let on = plus_eq cal laws start 60 (omega (arith, inside)) in
            let again =
              same_day_eq cal laws sched next (hour next) (minute next) v (omega (arith, inside))
                (omega (arith, u)) (omega (arith, u)) (omega (arith, u)) in
            record {
              target = date next * 86400 + hour next * 3600 + minute next * 60 + v;
              is_target = rw (n.is_next, there, on, again) refl;
              later = omega arith;
              passed = λ t a b. elim (Bool-cases (ltb t next)) [
                | inl k ↦
                    let k' : t < next = ground (arith, k) in
                    ground (arith, n.none_left (second t) (omega (arith, a, k')))
                | inr k ↦
                    let k' : next ≤ t = ground (arith, k) in
                    ground (arith, n.skips (second t) (omega arith) (omega (arith, b, k', u)))
              ];
              within = omega (arith, inside, u);
            }
      ]
