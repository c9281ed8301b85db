-- ===== src/Cron/Zone/Calls.antt =====
-- `next_after_unix` as the scheduler calls it (honker-core/src/cron.rs).
use honker.Cron.Zone.{
  next_after_unix, earliest, or_stuck, TimeZone, next_after_unix_in_tz, add_interval,
}
use honker.Action.{
  ok, err, Result, bad_schedule, interval_overflow, no_boundary, bad_timestamp, Error,
}
use honker.Base.Int.{ℤ, ◌<ℤ◌, pos, in_i64, ◌+ℤ◌, +ℤ_parts}
use honker.Cron.Expr.{
  parse_expr, ScheduleExpr, parse_every_interval, CronSchedule, every, cron, parse_cron, expr_of,
}
use honker.Cron.Calendar.{Calendar, IsCalendar, date, last_time}
use honker.Cron.Text.{codes, strip_prefix, trim}
use honker.Cron.Field.Grammar.{>>=-ok}
use honker.Cron.Zone.Refusals.{parse_expr-OnlyBad, OnlyBad}
use honker.Cron.Zone.Later.{NotRepeated, next_after_unix_in_tz_later, IsTimeZone}
use honker.Base.{
  ℕ, suc, ◌+◌, ◌<◌, String, ◌≡◌, refl, Option, none, some, List, ap, inl, inr, arith, Option-cases,
  Bool-cases, subst, sym, Bool, true, false,
}
use honker.Cron.Zone.Next.{Answers, next_after_unix_in_tz-Answers}
use honker.RateLimit.{below}
use honker.Cron.Expr.Interval.{parse_every_interval_lem}

-- The local time of `from_unix`, if it has one, is more than two hundred years before the calendar
-- ends.
abbrev pub Early : Calendar → TimeZone → ℤ → Type 0
Early cal tz from_unix =
    (local : ℕ)
    → earliest (tz.local_of from_unix) ≡ some local
    → cal.year (date (local + 1)) + 200 < cal.year cal.last_day

-- The clock of the zone does not repeat its local time at `from_unix`.
abbrev pub Once : TimeZone → ℤ → Type 0
Once tz from_unix =
    (local : ℕ) → earliest (tz.local_of from_unix) ≡ some local → NotRepeated tz from_unix local

-- The errors that the function documents.
abbrev pub is_named : Error → Bool
is_named bad_schedule = true
is_named bad_timestamp = true
is_named interval_overflow = true
is_named no_boundary = true
is_named _ = false

abbrev pub IsNamed : Result ℤ → Type 0
IsNamed (ok u) = Unit
IsNamed (err e) = is_named e ≡ true

expr_of-every :
    (text : List ℕ) (o : Option (List ℕ)) (n : ℕ) → expr_of text o ≡ ok (every n) → 0 < n
unfolding parse_cron
expr_of-every text (some rest) n h =
    let (s, a, b) = >>=-ok (parse_every_interval (trim rest)) _ h in
    let (digits, unit, count, mult, e, r, q, p, above, below) =
      parse_every_interval_lem (trim rest) s a in
    let same : s ≡ n = ground (arith, b) in subst (λ k. 0 < k) same above
expr_of-every text none n h =
    let (x, a, b) = >>=-ok (parse_cron text) _ h in absurd (ground (arith, b))

parse_expr-every : (expr : List ℕ) (n : ℕ) → parse_expr expr ≡ ok (every n) → 0 < n
unfolding parse_expr
parse_expr-every expr n h =
    expr_of-every (trim expr) (strip_prefix (trim expr) (codes "@every")) n h

module _ (cal : Calendar) (tz : TimeZone) (laws : IsCalendar cal) (from_unix : ℤ)
    (early : Early cal tz from_unix) where
  answered :
      (sched : CronSchedule) (local : ℕ) (r : Option (Result ℤ))
      → Answers cal tz sched local r
      → IsNamed (or_stuck cal tz r)
  answered sched local none a = absurd a
  answered sched local (some (ok u)) a = tt
  answered sched local (some (err x)) a = subst (λ y. is_named y ≡ true) (sym a) refl

  interval_no_panic : (n : ℕ) → IsNamed (add_interval cal tz from_unix n)
  interval_no_panic n = elim (Bool-cases (in_i64 (from_unix +ℤ pos n))) [
    | inl k ↦ rw k tt
    | inr k ↦ rw k refl
  ]

  interval_later : (n : ℕ) (u : ℤ) → 0 < n → add_interval cal tz from_unix n ≡ ok u → from_unix <ℤ u
  interval_later n u above e = elim (Bool-cases (in_i64 (from_unix +ℤ pos n))) [
    | inl k ↦
        let same : from_unix +ℤ pos n ≡ u = ground (arith, k, e) in
        subst (λ z. from_unix <ℤ z) same (later_sum from_unix)
    | inr k ↦ absurd (ground (arith, k, e))
  ]
    where
      later_sum : (a : ℤ) → a <ℤ (a +ℤ pos n)
      later_sum a = omega (arith, +ℤ_parts a (pos n), above)

  -- A call on a time whose local time, if it has one, is more than two hundred years before the
  -- calendar ends gives a result, or fails with `bad_schedule`, `bad_timestamp`, `interval_overflow` or
  -- `no_boundary`: the fuel lasts, and nothing panics.
  pub next_after_unix_no_panic : (expr : String) → IsNamed (next_after_unix cal tz expr from_unix)
  unfolding next_after_unix next_after_unix_in_tz
  next_after_unix_no_panic expr =
      read (parse_expr (codes expr)) refl (parse_expr-OnlyBad (codes expr))
    where
      read :
          (p : Result ScheduleExpr)
          → parse_expr (codes expr) ≡ p
          → OnlyBad p
          → IsNamed (
              or_stuck cal tz
                (next_after_unix_in_tz cal tz (suc (last_time cal)) (codes expr) from_unix))
      read (err x) h b = rw h (subst (λ y. is_named y ≡ true) (sym b) refl)
      read (ok (every n)) h b = rw h (interval_no_panic n)
      read (ok (cron sched)) h b = elim (Option-cases (earliest (tz.local_of from_unix))) [
        | inl k ↦ rw (h, k) refl
        | inr (local, k) ↦ answered sched local _ (
            next_after_unix_in_tz-Answers cal tz (suc (last_time cal)) (codes expr) from_unix sched
              local laws h k (early local k) (omega arith))
      ]

  -- The result of a call is strictly after the time asked for, if the local time there is more than two
  -- hundred years before the calendar ends, where there is one, and the zone's clock does not repeat it.
  pub next_after_unix_later :
      (expr : String) (u : ℤ)
      → IsTimeZone tz
      → Once tz from_unix
      → next_after_unix cal tz expr from_unix ≡ ok u
      → from_unix <ℤ u
  unfolding next_after_unix next_after_unix_in_tz
  next_after_unix_later expr u zone once e = read (parse_expr (codes expr)) refl
    where
      given : (r : Option (Result ℤ)) → or_stuck cal tz r ≡ ok u → r ≡ some (ok u)
      given none h = absurd (ground (arith, h))
      given (some r) h = ap some h

      read : (p : Result ScheduleExpr) → parse_expr (codes expr) ≡ p → from_unix <ℤ u
      read (err x) h = absurd (ground (arith, rw h at e))
      read (ok (every n)) h =
          let k = parse_expr-every (codes expr) n h in
          let e' : add_interval cal tz from_unix n ≡ ok u = rw h at e in interval_later n u k e'
      read (ok (cron sched)) h = elim (Option-cases (earliest (tz.local_of from_unix))) [
        | inl k ↦ absurd (ground (arith, rw (h, k) at e))
        | inr (local, k) ↦
            next_after_unix_in_tz_later cal tz (suc (last_time cal)) (codes expr) from_unix u sched
              local laws zone h k (early local k) (omega arith) (once local k) (given _ e)
      ]
