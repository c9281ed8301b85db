-- ===== src/Cron/Expr.antt =====
-- Schedule expressions: `CronSchedule::parse`, `parse_every_interval` and `ScheduleExpr::parse`
-- (honker-core/src/cron.rs).
pub mod Interval
use honker.Action.{Result, ok, bad_schedule, err}
use honker.Cron.Field.{parse_field, ◌>>=◌, positive, or_bad}
use honker.Base.Int.{i64_max}
use honker.Cron.Text.{codes, unsigned, trim, strip_prefix, is_ascii_digit, split_whitespace}
use honker.Base.{ℕ, ◌*◌, none, some, List, [], ◌∷◌, if◌then◌else◌, ◌==◌, ltb, Option}
use honker.Cron.Calendar.{second, minute, hour}

pub record CronSchedule : Type 0 where
  pub seconds : List ℕ
  pub minutes : List ℕ
  pub hours : List ℕ
  pub days : List ℕ
  pub months : List ℕ
  pub dows : List ℕ

pub data ScheduleExpr : Type 0 where
  every : (interval_s : ℕ) → ScheduleExpr
  cron : CronSchedule → ScheduleExpr

-- Five fields, after the set of the seconds.
unfoldable pub five_fields :
    List ℕ → List ℕ → List ℕ → List ℕ → List ℕ → List ℕ → Result CronSchedule
unfolding parse_field
five_fields seconds minute hour dom month dow = parse_field minute 0 59 >>= λ minutes.
    parse_field hour 0 23 >>= λ hours. parse_field dom 1 31 >>= λ days.
    parse_field month 1 12 >>= λ months. parse_field dow 0 6 >>= λ dows. ok (record {
      seconds = seconds;
      minutes = minutes;
      hours = hours;
      days = days;
      months = months;
      dows = dows;
    })

abbrev pub parse_words : List (List ℕ) → Result CronSchedule
parse_words (minute ∷ hour ∷ dom ∷ month ∷ dow ∷ []) =
    five_fields (0 ∷ []) minute hour dom month dow
parse_words (second ∷ minute ∷ hour ∷ dom ∷ month ∷ dow ∷ []) =
    parse_field second 0 59 >>= λ seconds. five_fields seconds minute hour dom month dow
parse_words _ = err bad_schedule

unfoldable pub parse_cron : List ℕ → Result CronSchedule
unfolding split_whitespace five_fields
parse_cron expr = parse_words (split_whitespace expr)

abbrev pub take_digits : List ℕ → List ℕ
take_digits [] = []
take_digits (c ∷ s) = let rest = c ∷ take_digits s in if is_ascii_digit c then rest else []

abbrev pub drop_digits : List ℕ → List ℕ
drop_digits [] = []
drop_digits (c ∷ s) = let rest = drop_digits s in if is_ascii_digit c then rest else c ∷ s

-- How many seconds a unit has.
abbrev pub unit_seconds : List ℕ → Result ℕ
unit_seconds (c ∷ []) =
    if c == b's'
    then ok 1
    else if c == b'm'
    then ok 60
    else if c == b'h'
    then ok (60 * 60)
    else if c == b'd'
    then ok (60 * 60 * 24)
    else err bad_schedule
unit_seconds _ = err bad_schedule

-- `checked_mul`
abbrev pub checked_mul : ℕ → ℕ → Result ℕ
checked_mul n mult = if ltb i64_max (n * mult) then err bad_schedule else ok (n * mult)

-- An empty text, one without digits and one of digits only have no number or no unit, and are refused
-- by the reading of these.
unfoldable pub parse_every_interval : List ℕ → Result ℕ
unfolding unsigned
parse_every_interval body = or_bad (unsigned i64_max (take_digits body)) >>= λ n.
    positive n >>= λ count. unit_seconds (drop_digits body) >>= λ mult. checked_mul count mult

-- What follows `@every` is an interval; without it the text has the fields of a schedule.
abbrev pub expr_of : List ℕ → Option (List ℕ) → Result ScheduleExpr
expr_of trimmed (some rest) =
    parse_every_interval (trim rest) >>= λ interval_s. ok (every interval_s)
expr_of trimmed none = parse_cron trimmed >>= λ schedule. ok (cron schedule)

unfoldable pub parse_expr : List ℕ → Result ScheduleExpr
unfolding parse_every_interval parse_cron trim strip_prefix
parse_expr expr = expr_of (trim expr) (strip_prefix (trim expr) (codes "@every"))
