-- ===== src/Examples/Client.antt =====
-- A consumer that iterates over a small stream.
use honker.Client.Subscription.{run, subscribe, act}
use honker.Stream.Ordered.{last_offset}
use honker.Client.Subscription.Once.{run-hands_out_once, run-hands_out_all}
use honker.Client.Subscription.Resume.{stream_get_offset-dropped}
use mathlib.Core.List.{Sublistᴰ}
use honker.Base.{◌≡◌, refl, true, false, none, List, [], ◌∷◌, arith, ℕ, String}
use honker.Action.{ok, Result, in_savepoint}
use honker.Table.{select, insert, order_by}
use honker.Stream.{
  is_since, stream_read_since, stream_save_offset, Streams, stream_get_offset, stream_publish,
}
use honker.Base.Int.{◌-ℤ◌, pos, ◌+ℤ◌, ◌≤ℤ◌, wrap_i64, ℤ}
use honker.Stream.Ordered.{IsOrdered}
use honker.Client.Subscription.{
  saves_for, iterates, pop, Act, next, act, save_offset, batches, dropped, waits, Subscription,
  publishes, refill,
}
use honker.Lock.{lock_renew, lock_acquire, lock_release, insert_or_ignore}
use honker.Queue.Valid.{empty}
use honker.Client.Leader.{
  site_run, leaves, Step, tries, leader_round, Site, renews_lock, ticks, renew, tick, site_step,
  lock_try_acquire, release_lock,
}
use honker.Client.Leader.Exclusive.{leader_round_excludes}
use honker.Scheduler.Tick.{fire_tasks, scheduler_tick, scheduler_tick_inner}

abbrev empty_streams : Streams
empty_streams = record { events = []; next_offset = 1; consumers = [] }

abbrev mailer : Subscription
mailer = record {
  topic = "orders";
  consumer = "mailer";
  last_offset = pos 0;
  last_saved = pos 0;
  save_every_n = pos 1000;
  pending = [];
}

abbrev orders : List Act
orders =
    batches (pos 2)
    ∷ publishes "orders" none "a" (pos 10)
    ∷ publishes "carts" none "b" (pos 11)
    ∷ iterates true false
    ∷ iterates false false
    ∷ publishes "orders" none "c" (pos 12)
    ∷ iterates false false
    ∷ saves_for "auditor" "orders" (pos 1)
    ∷ []

empty-IsOrdered : IsOrdered empty_streams
empty-IsOrdered = record { increasing = tt; fresh = omega arith }

mailer_subscribes : subscribe "mailer" "orders" empty_streams ≡ ok mailer
unfolding subscribe stream_get_offset
mailer_subscribes = refl

run-hands_out_once_example :
    Sublistᴰ (run orders (record { sub = mailer; streams = empty_streams })).0 (
      select
        (is_since "orders" (pos 0))
        (run orders (record { sub = mailer; streams = empty_streams })).1.streams.events)
run-hands_out_once_example =
    run-hands_out_once "mailer" "orders" empty_streams mailer orders empty-IsOrdered
      mailer_subscribes

all_out :
    (next false false (run orders (record { sub = mailer; streams = empty_streams })).1).0 ≡ waits
unfolding run act next refill pop save_offset stream_publish stream_read_since stream_save_offset
    order_by insert wrap_i64 ◌-ℤ◌ ◌+ℤ◌
all_out = refl

run-hands_out_all_example :
    select
      (is_since "orders" (pos 0))
      (run orders (record { sub = mailer; streams = empty_streams })).1.streams.events
    ≡ (run orders (record { sub = mailer; streams = empty_streams })).0
run-hands_out_all_example =
    run-hands_out_all "mailer" "orders" empty_streams mailer orders false false empty-IsOrdered
      mailer_subscribes refl all_out

-- The offset 3 is saved on the way, as the batch size is 2.
mailer-run :
    (last_offset (pos 0) (run orders (record { sub = mailer; streams = empty_streams })).0 ≡ pos 3)
    × ((run orders (record { sub = mailer; streams = empty_streams })).1.sub.last_saved ≡ pos 3)
unfolding run act next refill pop save_offset stream_publish stream_read_since stream_save_offset
    order_by insert wrap_i64 ◌-ℤ◌ ◌+ℤ◌
mailer-run = (refl, refl)

stream_get_offset-dropped_example :
    let (es, y) = run orders (record { sub = mailer; streams = empty_streams }) in
    (stream_get_offset "mailer" "orders" y.streams ≡ ok y.sub.last_saved)
    × (y.sub.last_saved ≤ℤ last_offset (pos 0) es)
    × (stream_get_offset "mailer" "orders" (dropped false y) ≡ ok (last_offset (pos 0) es))
stream_get_offset-dropped_example =
    stream_get_offset-dropped "mailer" "orders" empty_streams mailer orders empty-IsOrdered
      mailer_subscribes refl refl

-- The leader's lock, of which 10 seconds are left.
abbrev led_site : Site
led_site = record {
  locks = record { name = "honker-scheduler"; owner = "a"; expires_at = pos 100 } ∷ [];
  schedule = record { tasks = []; jobs = empty };
  ready = [];
}

abbrev each_minute : String → ℤ → Result ℤ
each_minute expr now = ok (now +ℤ pos 60)

abbrev at_ninety : ℕ → ℤ
at_ninety i = pos 90

abbrev others : List (Step each_minute)
others =
    tries false "b" (pos 120) (pos 120)
    ∷ renews_lock false "b" (pos 121)
    ∷ ticks false "b" (pos 121) (pos 121) at_ninety
    ∷ leaves false "b"
    ∷ []

leader_round_excludes_example :
    let y =
      (leader_round each_minute false false "a"
        (pos 90)
        (site_run each_minute others)
        (pos 90)
        (pos 90)
        at_ninety
        led_site).1 in
    scheduler_tick each_minute (pos 90) (pos 90) at_ninety led_site.schedule
    ≡ (ok [], (site_run each_minute others y).schedule)
unfolding leader_round site_run site_step lock_try_acquire release_lock renew tick lock_acquire
    lock_renew lock_release insert_or_ignore scheduler_tick scheduler_tick_inner in_savepoint
    fire_tasks order_by ◌+ℤ◌
leader_round_excludes_example =
    leader_round_excludes each_minute false false "a" (pos 90) (pos 90) (pos 90) at_ninety led_site
      [] others others (λ n. ground arith) refl refl refl refl
