-- ===== src/Examples/Companions.antt =====
-- Locks, rate limits, results and streams on small tables.
use honker.Lock.Exclusion.{lock_acquire_excludes, acquires, lock_run, IsUnique}
use honker.RateLimit.Bounds.{grants_bounded, Try, grants}
use honker.Results.Lookup.{result_get-save}
use honker.Stream.Paging.{stream_read_since_pages, event}
use honker.Stream.{Streams, stream_read_since, Event}
use honker.RateLimit.{Window}
use honker.Lock.{Lock, lock_acquire, lock_release}
use honker.Action.{ok}
use honker.Base.Int.{ℤ, pos, negsuc, ◌+ℤ◌, leb_ℤ, ltb_ℤ}
use honker.Table.{insert, order_by}
use honker.Results.{result_get, StoredResult, result_save}
use honker.Base.{
  ℕ, ◌+◌, ◌≤◌, String, ◌≡◌, refl, ◌≢◌, ◌&&◌, none, some, List, [], ◌∷◌, ◌++◌, arith, eq_iff,
  if◌then◌else◌,
}
use honker.Stream.Ordered.{IsOrdered, last_offset}
use honker.Lock.Handover.{lock_handover}

abbrev no_locks : List Lock
no_locks = []

abbrev worker_a : String
worker_a = "a"

abbrev worker_b : String
worker_b = "b"

different : worker_a ≢ worker_b
different e = absurd (ground (arith, (eq_iff worker_a worker_b).1 e))

lock_acquire_excludes_example :
    ((lock_acquire "nightly" "a" (pos 60) (pos 100) (pos 100) no_locks).0 ≡ ok 1)
    × ((lock_acquire "nightly" "b" (pos 60) (pos 130) (pos 130) (
          lock_run
            (lock_acquire "nightly" "a" (pos 60) (pos 100) (pos 100) no_locks).1
            (acquires "nightly" "c" (pos 5) (pos 120) (pos 120) ∷ []))).0
        ≡ ok 0)
unfolding ◌+ℤ◌
lock_acquire_excludes_example =
    lock_acquire_excludes "nightly" "a" "b" (pos 60) (pos 60) (pos 100) (pos 100) (pos 130)
      (pos 130) (acquires "nightly" "c" (pos 5) (pos 120) (pos 120) ∷ []) no_locks
      (λ n. omega arith) refl different refl (omega arith)

abbrev no_windows : List Window
no_windows = []

abbrev mail_at : ℤ → Try
mail_at now = record { name = "mail"; limit = pos 2; per = pos 60; now = now }

abbrev three_tries : List Try
three_tries = mail_at (pos 121) ∷ mail_at (pos 130) ∷ mail_at (pos 179) ∷ []

grants_bounded_example : 0 + grants "mail" (pos 120) three_tries no_windows ≤ 2
grants_bounded_example =
    grants_bounded "mail" (pos 120) 2 0 three_tries no_windows refl (omega arith) refl

abbrev no_results : List StoredResult
no_results = []

result_get-save_example :
    (result_get
        (pos 7)
        (pos 150)
        (result_save (pos 7) "done" (pos 60) (pos 100) (pos 100) no_results).1
      ≡ ok (
          if ltb_ℤ (pos 0) (pos 60) && leb_ℤ (pos 100 +ℤ pos 60) (pos 150)
          then none
          else some "done"))
    × (result_get
          (pos 8)
          (pos 150)
          (result_save (pos 7) "done" (pos 60) (pos 100) (pos 100) no_results).1
        ≡ result_get (pos 8) (pos 150) no_results)
unfolding ◌+ℤ◌
result_get-save_example =
    result_get-save (pos 7) "done" (pos 60) (pos 100) (pos 100) (pos 150) no_results (pos 8) refl
      (λ e. absurd (ground (arith, e)))

abbrev on_topic : String → ℕ → Event
on_topic topic k = event topic "x" none (pos 100) k

abbrev three_events : Streams
three_events = record {
  events = on_topic "t" 1 ∷ on_topic "u" 2 ∷ on_topic "t" 3 ∷ [];
  next_offset = 4;
  consumers = record { name = "c"; topic = "t"; offset = pos 1 } ∷ [];
}

three_events-IsOrdered : IsOrdered three_events
three_events-IsOrdered = record {
  increasing = (omega arith, (omega arith, (omega arith, tt)));
  fresh = omega arith;
}

abbrev page_one : List Event
page_one = on_topic "t" 1 ∷ []

abbrev page_two : List Event
page_two = on_topic "t" 3 ∷ []

reads_one : stream_read_since "t" (pos 0) (pos 1) three_events ≡ ok page_one
unfolding stream_read_since order_by insert
reads_one = refl

reads_two : stream_read_since "t" (last_offset (pos 0) page_one) (pos 5) three_events ≡ ok page_two
unfolding stream_read_since order_by insert
reads_two = refl

stream_read_since_pages_example :
    stream_read_since "t" (pos 0) (pos (1 + 5)) three_events ≡ ok (page_one ++ page_two)
stream_read_since_pages_example =
    stream_read_since_pages "t" (pos 0) 1 5 three_events page_one page_two three_events-IsOrdered
      reads_one reads_two

reads_rest : stream_read_since "t" (pos 1) (negsuc 0) three_events ≡ ok page_two
unfolding stream_read_since order_by insert
reads_rest = refl

abbrev one_lock : List Lock
one_lock = record { name = "nightly"; owner = worker_a; expires_at = pos 160 } ∷ []

one_lock-IsUnique : IsUnique one_lock
one_lock-IsUnique n = ground arith

lock_handover_example :
    ((lock_release "nightly" worker_a one_lock).0 ≡ ok 1)
    × ((lock_acquire "nightly" worker_b
          (pos 60)
          (pos 100)
          (pos 100)
          (lock_release "nightly" worker_a one_lock).1).0
        ≡ ok 1)
lock_handover_example =
    lock_handover "nightly" worker_a worker_b (pos 60) (pos 100) (pos 100) one_lock
      one_lock-IsUnique (omega arith)
