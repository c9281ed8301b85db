-- ===== src/Cron/Search/Least.antt =====
-- What `cron_next_after_naive` finds (honker-core/src/cron.rs).
use honker.Cron.Search.{cron_next_after_naive, search_loop, round, found, matches, go_on}
use honker.Action.{ok, err, Result, no_boundary}
use honker.Cron.Expr.{CronSchedule}
use honker.Cron.Calendar.{IsCalendar, Calendar, date, last_time}
use honker.Cron.Search.Days.{date_key_mono, date_room, plus_eq}
use honker.Cron.Search.Rounds.{round_cases}
use honker.Cron.Search.Skips.{NoneIn, IsSchedule}
use honker.Base.{
  ℕ, zero, suc, ◌+◌, ◌≤◌, ◌<◌, ◌≡◌, refl, inl, inr, true, false, Option, none, some, arith,
  Bool-cases, ltb, leb,
}

module _ (cal : Calendar) (sched : CronSchedule) where
  search_step :
      (fuel last c : ℕ)
      → search_loop cal sched (suc fuel) last c ≡ (elim (leb (cal.year (date c)) last) [
        | false ↦ some (err no_boundary)
        | true ↦ elim (round cal sched c) [
          | err e ↦ some (err e)
          | ok (found t) ↦ some (ok t)
          | ok (go_on t) ↦ search_loop cal sched fuel last t
        ]
      ])
  unfolding search_loop
  search_step fuel last c = refl

  -- A search from `c` up to the end of the year `last` ends with the least time that matches, or with
  -- none where no time of these years matches.
  abbrev pub Least : ℕ → ℕ → Option (Result ℕ) → Type 0
  Least last c none = ⊥
  Least last c (some (ok t)) =
      (c ≤ t) × (cal.year (date t) ≤ last) × (matches cal sched t ≡ true) × NoneIn cal sched c t
  Least last c (some (err e)) =
      (e ≡ no_boundary) × ((t : ℕ) → c ≤ t → cal.year (date t) ≤ last → matches cal sched t ≡ false)

module _ (cal : Calendar) (laws : IsCalendar cal) (sched : CronSchedule) (valid : IsSchedule sched)
    (last : ℕ) (room : last < cal.year cal.last_day) where
  Least-past :
      (c t : ℕ) (r : Option (Result ℕ))
      → c < t
      → NoneIn cal sched c t
      → Least cal sched last t r
      → Least cal sched last c r
  Least-past c t none h n l = absurd l
  Least-past c t (some (ok u)) h n (a, y, m, k) = (
    omega arith,
    y,
    m,
    λ s p q. elim (Bool-cases (ltb s t)) [
      | inl e ↦ n s p (ground (arith, e))
      | inr e ↦ k s (ground (arith, e)) q
    ],
  )
  Least-past c t (some (err x)) h n (a, k) = (
    a,
    λ s p q. elim (Bool-cases (ltb s t)) [
      | inl e ↦ n s p (ground (arith, e))
      | inr e ↦ k s (ground (arith, e)) q
    ],
  )

  year_mono : (c t : ℕ) → c ≤ t → cal.year (date c) ≤ cal.year (date t)
  year_mono c t h =
      let j = date_key_mono cal laws (date c) (date t) (omega (arith, h)) in
      omega (
        arith,
        j,
        laws.month_bounds (date c),
        laws.month_bounds (date t),
        laws.day_bounds (date c),
        laws.day_bounds (date t),
      )

  search_loop-Least :
      (fuel c : ℕ)
      → c ≤ last_time cal
      → last_time cal < c + fuel
      → Least cal sched last c (search_loop cal sched fuel last c)
  search_loop-Least zero c a b = absurd (omega (arith, a, b))
  search_loop-Least (suc fuel) c a b = elim (Bool-cases (leb (cal.year (date c)) last)) [
    | inr e ↦
        rw (search_step cal sched fuel last c, e)
          (refl, λ t p q. let j = year_mono c t p in absurd (ground (arith, j, q, e)))
    | inl e ↦ elim (round_cases cal laws sched valid c (ground (arith, e, room))) [
      | inl (r, m) ↦
          rw (search_step cal sched fuel last c, e, r)
            (omega arith, ground (arith, e), m, λ t p q. absurd (omega (arith, p, q)))
      | inr (t, r, l, n, w) ↦
          rw (search_step cal sched fuel last c, e, r)
            (Least-past c t _ l n (search_loop-Least fuel t w (omega (arith, l, b))))
    ]
  ]

-- With a valid schedule and a calendar that reaches past the hundred years after `from`, the search
-- ends, for fuel up to the last time, and does not panic. Its result is the least time after `from`
-- that matches; it fails with `no_boundary` only if no time of these hundred years matches.
pub cron_next_after_naive-Least :
    (cal : Calendar) (sched : CronSchedule) (fuel from : ℕ)
    → IsCalendar cal
    → IsSchedule sched
    → cal.year (date (from + 1)) + 100 < cal.year cal.last_day
    → last_time cal < from + fuel
    → Least cal sched
        (cal.year (date (from + 1)) + 100)
        (from + 1)
        (cron_next_after_naive cal sched fuel from)
unfolding cron_next_after_naive
cron_next_after_naive-Least cal sched fuel from laws valid room enough =
    let inside = date_room cal laws (from + 1) (omega (arith, room)) in
    let fits : from + 1 ≤ last_time cal = omega (arith, inside) in
    rw (plus_eq cal laws from 1 fits)
      (search_loop-Least cal laws sched valid _ room fuel (from + 1) fits (omega (arith, enough)))
