-- ===== src/Cron/Zone/Schedules.antt =====
-- What the parse of an expression promises to the search (honker-core/src/cron.rs).
use honker.Cron.Search.Skips.{IsSchedule}
use honker.Action.{ok}
use honker.Cron.Expr.{
  CronSchedule, five_fields, parse_expr, parse_cron, parse_every_interval, parse_words, cron,
  expr_of,
}
use honker.Cron.Calendar.{minute, hour}
use honker.Cron.Text.{strip_prefix, trim, split_whitespace, codes}
use honker.Cron.Field.{parse_field}
use honker.Cron.Field.Meaning.{parse_field-IsFieldSet, IsFieldSet}
use honker.Cron.Field.Grammar.{>>=-ok}
use honker.Base.{ℕ, ◌≡◌, ap, ◌∙◌, subst, List, [], ◌∷◌, arith, Option, none, some}

five_fields-IsSchedule :
    (seconds : List ℕ) (minute hour dom month dow : List ℕ) (sched : CronSchedule)
    → IsFieldSet 0 59 seconds
    → five_fields seconds minute hour dom month dow ≡ ok sched
    → IsSchedule sched
unfolding five_fields
five_fields-IsSchedule seconds minute hour dom month dow sched s h =
    let (minutes, a, h₁) = >>=-ok (parse_field minute 0 59) _ h in
    let (hours, b, h₂) = >>=-ok (parse_field hour 0 23) _ h₁ in
    let (days, c, h₃) = >>=-ok (parse_field dom 1 31) _ h₂ in
    let (months, d, h₄) = >>=-ok (parse_field month 1 12) _ h₃ in
    let (dows, e, h₅) = >>=-ok (parse_field dow 0 6) _ h₄ in
    let same = ok_inj h₅ in
    subst IsSchedule same (record {
      seconds = s;
      minutes = parse_field-IsFieldSet minute 0 59 minutes (omega arith) a;
      hours = parse_field-IsFieldSet hour 0 23 hours (omega arith) b;
      days = parse_field-IsFieldSet dom 1 31 days (omega arith) c;
      months = parse_field-IsFieldSet month 1 12 months (omega arith) d;
      dows = parse_field-IsFieldSet dow 0 6 dows (omega arith) e;
    })
  where
    ok_inj : {x y : CronSchedule} → ok x ≡ ok y → x ≡ y
    ok_inj k = ground (arith, k)

parse_words-IsSchedule :
    (words : List (List ℕ)) (sched : CronSchedule) → parse_words words ≡ ok sched → IsSchedule sched
parse_words-IsSchedule [] sched h = absurd (ground (arith, h))
parse_words-IsSchedule (a ∷ []) sched h = absurd (ground (arith, h))
parse_words-IsSchedule (a ∷ b ∷ []) sched h = absurd (ground (arith, h))
parse_words-IsSchedule (a ∷ b ∷ c ∷ []) sched h = absurd (ground (arith, h))
parse_words-IsSchedule (a ∷ b ∷ c ∷ d ∷ []) sched h = absurd (ground (arith, h))
parse_words-IsSchedule (a ∷ b ∷ c ∷ d ∷ e ∷ []) sched h =
    five_fields-IsSchedule (0 ∷ []) a b c d e sched
      (record {
        rising = (omega arith, tt);
        nonempty = omega arith;
        bounded = λ x m. ground (arith, m);
      })
      h
parse_words-IsSchedule (s ∷ a ∷ b ∷ c ∷ d ∷ e ∷ []) sched h =
    let (seconds, k, h₁) = >>=-ok (parse_field s 0 59) _ h in
    five_fields-IsSchedule seconds a b c d e sched
      (parse_field-IsFieldSet s 0 59 seconds (omega arith) k) h₁
parse_words-IsSchedule (s ∷ a ∷ b ∷ c ∷ d ∷ e ∷ f ∷ r) sched h = absurd (ground (arith, h))

expr_of-IsSchedule :
    (text : List ℕ) (o : Option (List ℕ)) (sched : CronSchedule)
    → expr_of text o ≡ ok (cron sched)
    → IsSchedule sched
unfolding parse_cron
expr_of-IsSchedule text (some rest) sched h =
    let (n, a, b) = >>=-ok (parse_every_interval (trim rest)) _ h in absurd (ground (arith, b))
expr_of-IsSchedule text none sched h =
    let (x, a, b) = >>=-ok (parse_cron text) _ h in
    let same : x ≡ sched = ground (arith, b) in
    parse_words-IsSchedule (split_whitespace text) sched (a ∙ ap ok same)

-- Every expression that is read as a schedule has sets in its fields' bounds, none of them empty.
pub parse_expr-IsSchedule :
    (expr : List ℕ) (sched : CronSchedule) → parse_expr expr ≡ ok (cron sched) → IsSchedule sched
unfolding parse_expr
parse_expr-IsSchedule expr sched h =
    expr_of-IsSchedule (trim expr) (strip_prefix (trim expr) (codes "@every")) sched h
