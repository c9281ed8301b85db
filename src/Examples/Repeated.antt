-- ===== src/Examples/Repeated.antt =====
-- A zone whose clock is set back by an hour once, and what the next boundary is in the repeated hour
-- (honker-core/src/cron.rs).
use honker.Examples.Zone.{thirty}
use honker.Cron.Zone.{next_after_unix, TimeZone, LocalResult, single, ambiguous, nowhere}
use honker.Action.{ok}
use honker.Base.Int.{ℤ, negsuc, pos}
use honker.Cron.Calendar.{make_dt}
use honker.Cron.Search.{skip_second, next_or_first, round, skip_minute}
use honker.Cron.Text.{trim_start, parse_u32, is_whitespace}
use honker.Cron.Field.{insert_into}
use honker.Base.{ℕ, ◌+◌, ◌-◌, ◌≡◌, refl, ltb, if◌then◌else◌}

abbrev set_back : ℤ → LocalResult ℕ
set_back (pos u) = if ltb u 7200 then single u else single (u - 3600)
set_back (negsuc u) = nowhere

abbrev read_back : ℕ → LocalResult ℤ
read_back t =
    if ltb t 3600
    then single (pos t)
    else if ltb t 7200
    then ambiguous (pos t) (pos (t + 3600))
    else single (pos (t + 3600))

-- At 7200 the clock shows 3600 again.
abbrev autumn : TimeZone
autumn = record { local_of = set_back; from_local = read_back }

-- Before the hour is repeated the result is later.
first_pass : next_after_unix thirty autumn "*/15 * * * *" (pos 3660) ≡ ok (pos 4500)
unfolding next_after_unix next_or_first make_dt round skip_minute skip_second is_whitespace
    trim_start insert_into parse_u32
first_pass = refl

-- In the second pass it is the boundary of the first one, which is over.
second_pass : next_after_unix thirty autumn "*/15 * * * *" (pos 7260) ≡ ok (pos 4500)
unfolding next_after_unix next_or_first make_dt round skip_minute skip_second is_whitespace
    trim_start insert_into parse_u32
second_pass = refl
