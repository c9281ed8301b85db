-- ===== src/Cron/Calendar.antt =====
-- Dates and times without a zone, as honker-core/src/cron.rs takes them from the crate chrono.
-- `NaiveDate` and `NaiveDateTime` are the days and the whole seconds since chrono's first day, and a
-- year is counted from the first year. The calendar itself is a parameter: its operations are
-- `Calendar`, and what chrono documents of them is `IsCalendar`.
use honker.Action.{Result, ok, err, panicked}
use honker.Base.{ℕ, ◌+◌, ◌*◌, ◌/◌, ◌%◌, ◌≤◌, ◌<◌, ◌≡◌, Option, none, some, ltb, if◌then◌else◌, ◌&&◌}

pub data Weekday : Type 0 where
  sun mon tue wed thu fri sat : Weekday

pub record Calendar : Type 0 where
  pub year : ℕ → ℕ
  pub month : ℕ → ℕ
  pub day : ℕ → ℕ
  pub weekday : ℕ → Weekday
  -- `NaiveDate::from_ymd_opt`
  pub from_ymd : ℕ → ℕ → ℕ → Option ℕ
  -- `NaiveDate::MAX`
  pub last_day : ℕ

-- Days in the order of their year, month and day of the month.
abbrev pub date_key : Calendar → ℕ → ℕ
date_key cal d = (cal.year d * 12 + cal.month d) * 32 + cal.day d

-- The fields of a day are in their bounds and grow with it, `from_ymd_opt` finds the days by their
-- fields, and every month of a year in the range has a first day.
pub record IsCalendar (cal : Calendar) : Type 0 where
  pub month_bounds : (d : ℕ) → (1 ≤ cal.month d) × (cal.month d ≤ 12)
  pub day_bounds : (d : ℕ) → (1 ≤ cal.day d) × (cal.day d ≤ 31)
  pub increasing : (d e : ℕ) → d < e → date_key cal d < date_key cal e
  pub from_fields :
      (d : ℕ) → d ≤ cal.last_day → cal.from_ymd (cal.year d) (cal.month d) (cal.day d) ≡ some d
  pub fields_of :
      (y m a d : ℕ)
      → cal.from_ymd y m a ≡ some d
      → (cal.year d ≡ y) × (cal.month d ≡ m) × (cal.day d ≡ a) × (d ≤ cal.last_day)
  pub first_of_month :
      (y m : ℕ)
      → 1 ≤ m
      → m ≤ 12
      → y ≤ cal.year cal.last_day
      → (d : ℕ) × (cal.from_ymd y m 1 ≡ some d)

abbrev pub date : ℕ → ℕ
date t = t / 86400

abbrev pub hour : ℕ → ℕ
hour t = t % 86400 / 3600

abbrev pub minute : ℕ → ℕ
minute t = t % 3600 / 60

abbrev pub second : ℕ → ℕ
second t = t % 60

module _ (cal : Calendar) where
  -- `NaiveDateTime::MAX`
  abbrev pub last_time : ℕ
  last_time = cal.last_day * 86400 + 86399

  -- A sum past the last time panics.
  abbrev pub plus : ℕ → ℕ → Result ℕ
  plus t n = if ltb last_time (t + n) then err panicked else ok (t + n)

  abbrev pub at_time : Option ℕ → ℕ → ℕ → ℕ → Result ℕ
  at_time none h mi s = err panicked
  at_time (some d) h mi s =
      if ltb h 24 && ltb mi 60 && ltb s 60
      then ok (d * 86400 + h * 3600 + mi * 60 + s)
      else err panicked

  unfoldable pub make_dt : ℕ → ℕ → ℕ → ℕ → ℕ → ℕ → Result ℕ
  make_dt y m a h mi s = at_time (cal.from_ymd y m a) h mi s
