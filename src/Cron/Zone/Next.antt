-- ===== src/Cron/Zone/Next.antt =====
-- What `next_after_unix_in_tz` returns (honker-core/src/cron.rs).
use honker.Cron.Zone.{
  earliest, TimeZone, ambiguous, single, nowhere, gap_loop, LocalResult, next_after_unix_in_tz,
  leave_gap,
}
use honker.Action.{ok, Result, err, no_boundary}
use honker.Base.Int.{ℤ}
use honker.Cron.Calendar.{IsCalendar, plus, Calendar, last_time, date}
use honker.Cron.Search.Days.{plus_eq, date_room}
use honker.Base.{
  ℕ, zero, suc, ◌+◌, ◌≤◌, ◌<◌, ◌≡◌, refl, subst, inl, inr, true, false, Option, none, some, arith,
  ltb, leb, Bool-cases, Option-cases, List,
}
use honker.Cron.Expr.{CronSchedule, cron, parse_expr}
use honker.Cron.Search.{matches}
use honker.Cron.Search.Least.{cron_next_after_naive-Least, Least}
use honker.Cron.Search.Skips.{NoneIn}
use honker.Cron.Zone.Schedules.{parse_expr-IsSchedule}

module _ (cal : Calendar) (tz : TimeZone) where
  -- The search for a local time that the zone has, from `c` up to the end of the year `last`.
  pub record Lands (c : ℕ) (u : ℤ) : Type 0 where
    pub local : ℕ
    pub from_here : c ≤ local
    pub is_time : earliest (tz.from_local local) ≡ some u
    pub left_out : (t : ℕ) → c ≤ t → t < local → tz.from_local t ≡ nowhere

  gap_step :
      (fuel last c : ℕ)
      → gap_loop cal tz (suc fuel) last c ≡ (elim (leb (cal.year (date c)) last) [
        | false ↦ some (err no_boundary)
        | true ↦ elim (earliest (tz.from_local c)) [
          | some u ↦ some (ok u)
          | none ↦ elim (plus cal c 1) [
            | err e ↦ some (err e)
            | ok next ↦ gap_loop cal tz fuel last next
          ]
        ]
      ])
  unfolding gap_loop
  gap_step fuel last c = refl

  earliest-none : {A : Type 0} (r : LocalResult A) → earliest r ≡ none → r ≡ nowhere
  earliest-none nowhere h = refl
  earliest-none (single a) h = absurd (ground (arith, h))
  earliest-none (ambiguous a b) h = absurd (ground (arith, h))

  -- The loop ends, and its result is the zone's first time from `c` on.
  abbrev pub Settled : ℕ → Option (Result ℤ) → Type 0
  Settled c none = ⊥
  Settled c (some (ok u)) = Lands c u
  Settled c (some (err e)) = e ≡ no_boundary

  Settled-past :
      (c : ℕ) (r : Option (Result ℤ)) → tz.from_local c ≡ nowhere → Settled (c + 1) r → Settled c r
  Settled-past c none h s = s
  Settled-past c (some (err e)) h s = s
  Settled-past c (some (ok u)) h s = record {
    local = s.local;
    from_here = omega (arith, s.from_here);
    is_time = s.is_time;
    left_out = λ t a b. elim (Bool-cases (ltb c t)) [
      | inl k ↦ s.left_out t (ground (arith, k)) b
      | inr k ↦
          let same : c ≡ t = ground (arith, k, a) in subst (λ z. tz.from_local z ≡ nowhere) same h
    ];
  }

  module _ (laws : IsCalendar cal) (last : ℕ) (room : last < cal.year cal.last_day) where
    pub gap_loop-Settled :
        (fuel c : ℕ)
        → c ≤ last_time cal
        → last_time cal < c + fuel
        → Settled c (gap_loop cal tz fuel last c)
    gap_loop-Settled zero c a b = absurd (omega (arith, a, b))
    gap_loop-Settled (suc fuel) c a b = elim (Bool-cases (leb (cal.year (date c)) last)) [
      | inr e ↦ rw (gap_step fuel last c, e) refl
      | inl e ↦
          let inside = date_room cal laws c (ground (arith, e, room)) in
          let next : c + 1 ≤ last_time cal = omega (arith, inside) in
          elim (Option-cases (earliest (tz.from_local c))) [
            | inr (u, k) ↦
                rw (gap_step fuel last c, e, k)
                  (record {
                    local = c;
                    from_here = omega arith;
                    is_time = k;
                    left_out = λ t p q. absurd (omega (arith, p, q));
                  })
            | inl k ↦
                rw (gap_step fuel last c, e, k, plus_eq cal laws c 1 next)
                  (Settled-past c _ (earliest-none (tz.from_local c) k)
                    (gap_loop-Settled fuel (c + 1) next (omega (arith, b))))
          ]
    ]

-- The timestamp `u` is the earliest of the local time `local`, which the zone has; between the least
-- time after `from` that matches and `local` the zone has no time.
pub record IsBoundary (cal : Calendar) (tz : TimeZone) (sched : CronSchedule) (from : ℕ) (u : ℤ)
    : Type 0 where
  pub boundary : ℕ
  pub after : from < boundary
  pub is_match : matches cal sched boundary ≡ true
  pub first : NoneIn cal sched (from + 1) boundary
  pub lands : Lands cal tz boundary u

abbrev pub Answers : Calendar → TimeZone → CronSchedule → ℕ → Option (Result ℤ) → Type 0
Answers cal tz sched from none = ⊥
Answers cal tz sched from (some (ok u)) = IsBoundary cal tz sched from u
Answers cal tz sched from (some (err e)) = e ≡ no_boundary

leave_gap-Answers :
    (cal : Calendar) (tz : TimeZone) (sched : CronSchedule) (fuel from last : ℕ)
    (r : Option (Result ℕ))
    → IsCalendar cal
    → last + 100 < cal.year cal.last_day
    → last_time cal < fuel
    → Least cal sched last (from + 1) r
    → Answers cal tz sched from (leave_gap cal tz fuel r)
leave_gap-Answers cal tz sched fuel from last none laws room enough l = l
leave_gap-Answers cal tz sched fuel from last (some (err e)) laws room enough l = l.0
leave_gap-Answers cal tz sched fuel from last (some (ok c)) laws room enough (a, y, m, n) =
    let inside = date_room cal laws c (omega (arith, y, room)) in
    settled (gap_loop cal tz fuel (cal.year (date c) + 100) c) (
      gap_loop-Settled cal tz laws (cal.year (date c) + 100) (omega (arith, y, room)) fuel c
        (omega (arith, inside)) (omega (arith, enough)))
  where
    settled : (r : Option (Result ℤ)) → Settled cal tz c r → Answers cal tz sched from r
    settled none s = s
    settled (some (err e)) s = s
    settled (some (ok u)) s = record {
      boundary = c;
      after = omega (arith, a);
      is_match = m;
      first = n;
      lands = s;
    }

-- For a schedule, and a time that the zone has, more than two hundred years before the calendar ends:
-- with fuel for every second of the calendar the call ends, and does not panic. It returns the
-- earliest timestamp of the least local time after the given one that matches, or of the first local
-- time after it that the zone has; else it fails with `no_boundary`.
pub next_after_unix_in_tz-Answers :
    (cal : Calendar) (tz : TimeZone) (fuel : ℕ) (expr : List ℕ) (from_unix : ℤ)
    (sched : CronSchedule) (local : ℕ)
    → IsCalendar cal
    → parse_expr expr ≡ ok (cron sched)
    → earliest (tz.local_of from_unix) ≡ some local
    → cal.year (date (local + 1)) + 200 < cal.year cal.last_day
    → last_time cal < fuel
    → Answers cal tz sched local (next_after_unix_in_tz cal tz fuel expr from_unix)
unfolding next_after_unix_in_tz
next_after_unix_in_tz-Answers cal tz fuel expr from_unix sched local laws parsed here room enough =
    rw (parsed, here)
      (leave_gap-Answers cal tz sched fuel local (cal.year (date (local + 1)) + 100) _ laws
        (omega (arith, room)) enough
        (cron_next_after_naive-Least cal sched fuel local laws
          (parse_expr-IsSchedule expr sched parsed) (omega (arith, room)) (omega (arith, enough))))
