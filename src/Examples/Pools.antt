-- ===== src/Examples/Pools.antt =====
-- Threads at the write slot (honker-core/src/lib.rs).
use honker.Pools.Writer.{
  new_writer, release, go_on, run, blocked, Choice, holding, acquire, close, Threads, outside,
}
use honker.Pools.Writer.Progress.{IsSound, run-IsSound}
use honker.Base.{ℕ, ◌≡◌, refl, inl, true, some, List, [], ◌∷◌}

abbrev three : Threads
three = record { writer = new_writer 7; calls = outside ∷ outside ∷ outside ∷ [] }

-- The first thread takes the connection, and the second waits for it.
abbrev contended : List (ℕ × Choice)
contended = (0, acquire) ∷ (0, go_on) ∷ (1, acquire) ∷ (1, go_on) ∷ []

waits_for_first : (run contended three).calls ≡ holding 7 ∷ blocked ∷ outside ∷ []
unfolding run
waits_for_first = refl

run-IsSound_example :
    IsSound
      (run contended three).writer.slot
      (run contended three).writer.closed
      (run contended three).calls
run-IsSound_example = run-IsSound contended three (refl, refl, inl refl)

-- The first thread is past the test in `release` when the third closes the writer, and puts the
-- connection into the closed slot.
abbrev late_release : List (ℕ × Choice)
late_release = (0, acquire) ∷ (0, go_on) ∷ (0, release) ∷ (2, close) ∷ (2, go_on) ∷ (0, go_on) ∷ []

kept_open : run late_release three ≡ (record {
  writer = record { slot = some 7; closed = true };
  calls = outside ∷ outside ∷ outside ∷ [];
})
unfolding run
kept_open = refl
