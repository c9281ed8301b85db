-- ===== src/Examples/Readers.antt =====
-- Threads at the reader pool (honker-core/src/lib.rs).
use honker.Pools.Readers.{
  take_turns, acquire, go_on, release, close, away, new_readers, waiting, open_fails, Visitors,
  Turn, using, opens,
}
use honker.Pools.Readers.Bounds.{IsBounded, take_turns-IsBounded}
use honker.Base.{ℕ, ◌≡◌, refl, true, List, [], ◌∷◌, arith}

abbrev two : Visitors
two = record { readers = new_readers 1; visits = away ∷ away ∷ [] }

abbrev shared_reader : List (ℕ × Turn)
shared_reader =
    (0, acquire)
    ∷ (0, go_on)
    ∷ (0, go_on)
    ∷ (0, opens 5)
    ∷ (0, go_on)
    ∷ (1, acquire)
    ∷ (1, go_on)
    ∷ (1, go_on)
    ∷ []

one_waits : (take_turns shared_reader two).visits ≡ using 5 ∷ waiting ∷ []
unfolding take_turns
one_waits = refl

take_turns-IsBounded_example : IsBounded 1 (take_turns shared_reader two)
take_turns-IsBounded_example =
    take_turns-IsBounded 1 shared_reader two (omega arith, omega arith, refl, λ h. refl)

-- The second thread waits for the slot of the first, whose connection cannot be opened. The slot is
-- given back, and the second thread still waits.
abbrev failed_open : List (ℕ × Turn)
failed_open =
    (0, acquire)
    ∷ (0, go_on)
    ∷ (0, go_on)
    ∷ (1, acquire)
    ∷ (1, go_on)
    ∷ (1, go_on)
    ∷ (0, open_fails)
    ∷ (0, go_on)
    ∷ []

left_waiting :
    take_turns failed_open two ≡ record { readers = new_readers 1; visits = away ∷ waiting ∷ [] }
unfolding take_turns
left_waiting = refl

-- The second thread is past the test of `closed` when the pool is closed, and waits after the call of
-- `close` has woken all threads.
abbrev late_wait : List (ℕ × Turn)
late_wait =
    (0, acquire)
    ∷ (0, go_on)
    ∷ (0, go_on)
    ∷ (0, opens 5)
    ∷ (0, go_on)
    ∷ (1, acquire)
    ∷ (1, go_on)
    ∷ (2, close)
    ∷ (2, go_on)
    ∷ (1, go_on)
    ∷ (0, release)
    ∷ []

waits_after_close :
    take_turns late_wait (record { readers = new_readers 1; visits = away ∷ away ∷ away ∷ [] })
    ≡ record {
      readers = record { pool = []; outstanding = 1; max = 1; closed = true };
      visits = away ∷ waiting ∷ away ∷ [];
    }
unfolding take_turns
waits_after_close = refl
