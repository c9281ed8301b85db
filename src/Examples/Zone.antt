-- ===== src/Examples/Zone.antt =====
-- A calendar of twelve months of thirty days and its zones, for the searches of a next boundary
-- (honker-core/src/cron.rs).
use honker.Cron.Zone.{
  earliest, single, nowhere, TimeZone, LocalResult, next_after_unix, next_after_unix_in_tz,
}
use honker.Base.Int.{negsuc, pos, ℤ, ◌≤ℤ◌, ◌<ℤ◌}
use honker.Cron.Calendar.{
  Calendar, sun, fri, sat, mon, IsCalendar, thu, wed, Weekday, tue, make_dt, last_time,
}
use honker.Cron.Zone.Later.{IsTimeZone}
use honker.Base.{
  ℕ, ◌+◌, ◌-◌, ◌*◌, ◌/◌, ◌%◌, ◌≤◌, ◌≡◌, ◌&&◌, Option, none, some, arith, if◌then◌else◌, leb, ◌==◌,
  suc, ◌<◌, refl, subst, [], ◌∷◌, List, All, length,
}
use honker.Action.{ok, in_savepoint}
use honker.Cron.Expr.{parse_expr, CronSchedule, cron}
use honker.Cron.Search.{
  next_or_first, skip_hour, round, skip_day, cron_next_after_naive, skip_month, skip_minute,
  skip_second,
}
use honker.Cron.Text.{codes, is_whitespace, parse_u32, trim_start}
use honker.Cron.Field.{insert_into}
use honker.Cron.Search.Least.{cron_next_after_naive-Least, Least}
use honker.Cron.Zone.Schedules.{parse_expr-IsSchedule}
use honker.Cron.Zone.Calls.{Once, Early, next_after_unix_no_panic, next_after_unix_later, IsNamed}
use honker.Scheduler.{Task, new_task, by_name}
use honker.Queue.Submit.{new_row, check_max_attempts, enqueue_at}
use honker.Queue.Valid.{empty}
use honker.Cron.Zone.Next.{Answers, next_after_unix_in_tz-Answers}
use honker.Scheduler.Tick.{
  Fire, Schedule, fire_tasks, scheduler_tick, is_due_task, fire_task, scheduler_tick_inner,
  catch_up,
}
use honker.Table.{order_by, count_if, insert, select}
use honker.Scheduler.Zones.{scheduler_tick_in_zone}
use honker.Cron.Search.Skips.{IsSchedule}
use honker.Client.Subscription.{next}
use honker.Scheduler.Done.{AllCaughtUp}

abbrev thirty_weekday : ℕ → Weekday
thirty_weekday d =
    if d % 7 == 0
    then mon
    else if d % 7 == 1
    then tue
    else if d % 7 == 2
    then wed
    else if d % 7 == 3
    then thu
    else if d % 7 == 4
    then fri
    else if d % 7 == 5
    then sat
    else sun

abbrev thirty_day : ℕ → ℕ → ℕ → Option ℕ
thirty_day y m a =
    if leb 1 m && leb m 12 && leb 1 a && leb a 30 && leb y 499
    then some (y * 360 + (m - 1) * 30 + (a - 1))
    else none

-- Five hundred years.
abbrev pub thirty : Calendar
thirty = record {
  year = λ d. d / 360;
  month = λ d. d % 360 / 30 + 1;
  day = λ d. d % 30 + 1;
  weekday = thirty_weekday;
  from_ymd = thirty_day;
  last_day = 179999;
}

thirty_fields :
    (y m a d : ℕ)
    → thirty_day y m a ≡ some d
    → (1 ≤ m) × (m ≤ 12) × (1 ≤ a) × (a ≤ 30) × (y ≤ 499) × (d ≡ y * 360 + (m - 1) * 30 + (a - 1))
thirty_fields y m a d h = ground (arith, h)

thirty-IsCalendar : IsCalendar thirty
thirty-IsCalendar = record {
  month_bounds = λ d. (omega arith, omega arith);
  day_bounds = λ d. (omega arith, omega arith);
  increasing = λ d e h. omega (arith, h);
  from_fields = λ d h.
      let k : d / 360 ≤ 499 = omega (arith, h) in
      let whole : d / 360 * 360 + d % 360 / 30 * 30 + d % 30 ≡ d = omega arith in
      ground (arith, k, whole);
  fields_of = λ y m a d h.
      let (p, q, r, s, u, e) = thirty_fields y m a d h in
      (
        omega (arith, p, q, r, s, e),
        omega (arith, p, q, r, s, e),
        omega (arith, p, q, r, s, e),
        omega (arith, p, q, r, s, u, e),
      );
  first_of_month = λ y m a b h. (y * 360 + (m - 1) * 30 + 0, ground (arith, a, b, h));
}

abbrev plain_local : ℤ → LocalResult ℕ
plain_local (pos n) = single n
plain_local (negsuc n) = nowhere

-- The times from 0 on, without a shift.
abbrev plain : TimeZone
plain = record { local_of = plain_local; from_local = λ t. single (pos t) }

plain-IsTimeZone : IsTimeZone plain
plain-IsTimeZone = record {
  reads_back = λ t u e.
      let same : pos t ≡ u = ground (arith, e) in
      subst (λ z. earliest (plain.local_of z) ≡ some t) same refl;
}

plain-Once : (n : ℕ) → Once plain (pos n)
plain-Once n local h u t b e = below u b e
  where
    same : n ≡ local
    same = ground (arith, h)

    below : (u : ℤ) → u ≤ℤ pos n → earliest (plain_local u) ≡ some t → t ≤ local
    below (pos k) b e = ground (arith, b, e, same)
    below (negsuc k) b e = absurd (ground (arith, e))

plain-Early : (n : ℕ) → n < 299 * 360 * 86400 - 1 → Early thirty plain (pos n)
plain-Early n b local h = let same : n ≡ local = ground (arith, h) in omega (arith, b, same)

abbrev quarterly : CronSchedule
quarterly = record {
  seconds = 0 ∷ [];
  minutes = 0 ∷ 15 ∷ 30 ∷ 45 ∷ [];
  hours = 3 ∷ [];
  days = 1 ∷ 15 ∷ [];
  months = 2 ∷ [];
  dows = 0 ∷ 1 ∷ 2 ∷ 3 ∷ 4 ∷ 5 ∷ 6 ∷ [];
}

reads_quarterly : parse_expr (codes "*/15 3 1,15 2 *") ≡ ok (cron quarterly)
unfolding parse_expr is_whitespace trim_start insert_into parse_u32
reads_quarterly = refl

abbrev enough : ℕ
enough = suc (last_time thirty)

searches : cron_next_after_naive thirty quarterly enough 100 ≡ some (ok 2602800)
unfolding cron_next_after_naive next_or_first make_dt round skip_month skip_day skip_hour
searches = refl

cron_next_after_naive_example :
    Least thirty quarterly 100 101 (cron_next_after_naive thirty quarterly enough 100)
cron_next_after_naive_example =
    cron_next_after_naive-Least thirty quarterly enough 100 thirty-IsCalendar
      (parse_expr-IsSchedule (codes "*/15 3 1,15 2 *") quarterly reads_quarterly) (omega arith)
      (omega arith)

next_after_unix_in_tz_example :
    Answers thirty plain quarterly 100
      (next_after_unix_in_tz thirty plain enough (codes "*/15 3 1,15 2 *") (pos 100))
next_after_unix_in_tz_example =
    next_after_unix_in_tz-Answers thirty plain enough (codes "*/15 3 1,15 2 *") (pos 100) quarterly
      100 thirty-IsCalendar reads_quarterly refl (omega arith) (omega arith)

calls : next_after_unix thirty plain "*/15 3 1,15 2 *" (pos 100) ≡ ok (pos 2602800)
unfolding next_after_unix next_or_first make_dt round skip_month skip_day skip_hour is_whitespace
    trim_start insert_into parse_u32
calls = refl

next_after_unix_later_example : pos 100 <ℤ pos 2602800
next_after_unix_later_example =
    next_after_unix_later thirty plain thirty-IsCalendar (pos 100) (plain-Early 100 (omega arith))
      "*/15 3 1,15 2 *" (pos 2602800) plain-IsTimeZone (plain-Once 100) calls

next_after_unix_no_panic_example : IsNamed (next_after_unix thirty plain "60 * * * *" (pos 100))
next_after_unix_no_panic_example =
    next_after_unix_no_panic thirty plain thirty-IsCalendar (pos 100)
      (plain-Early 100 (omega arith)) "60 * * * *"

abbrev report : ℤ → Task
report next = new_task "report" "mail" "*/15 3 1,15 2 *" "x" (pos 0) none (pos 3) next

abbrev report_due : Schedule
report_due = record { tasks = report (pos 2602800) ∷ []; jobs = empty }

abbrev report_fire : List Fire
report_fire = record { name = "report"; queue = "mail"; fire_at = pos 2602800; job_id = 1 } ∷ []

abbrev report_fired : Schedule
report_fired = record {
  tasks = report (pos 2603700) ∷ [];
  jobs = record {
    live = new_row 1 (pos 2602800) (pos 2602800) "mail" "x" none none (pos 0) (pos 3) none ∷ [];
    dead = [];
    next_id = 2;
  };
}

reports :
    scheduler_tick
      (next_after_unix thirty plain)
      (pos 2602800)
      (pos 2602800)
      (λ i. pos 2602800)
      report_due
    ≡ (ok report_fire, report_fired)
unfolding next_after_unix next_or_first make_dt round skip_month skip_day skip_hour skip_minute
    skip_second is_whitespace trim_start insert_into parse_u32 scheduler_tick scheduler_tick_inner
    in_savepoint fire_tasks fire_task catch_up enqueue_at check_max_attempts order_by insert new_row
reports = refl

scheduler_tick_in_zone_example :
    (count_if (is_due_task (pos 2602800)) report_fired.tasks ≡ 0)
    × (length report_fire ≤ 64 * count_if (is_due_task (pos 2602800)) report_due.tasks)
    × All (λ (f : Fire). f.fire_at ≤ℤ pos 2602800) report_fire
    × AllCaughtUp
        (next_after_unix thirty plain)
        (pos 2602800)
        (order_by by_name (select (is_due_task (pos 2602800)) report_due.tasks))
        report_fire
    × (length report_fired.jobs.live ≡ length report_due.jobs.live + length report_fire)
scheduler_tick_in_zone_example =
    scheduler_tick_in_zone thirty plain (pos 2602800) (pos 2602800) (λ i. pos 2602800) report_due
      report_fired report_fire thirty-IsCalendar plain-IsTimeZone
      (plain-Early 2602800 (omega arith)) (plain-Once 2602800) reports

parse_expr-IsSchedule_example : IsSchedule quarterly
parse_expr-IsSchedule_example =
    parse_expr-IsSchedule (codes "*/15 3 1,15 2 *") quarterly reads_quarterly
