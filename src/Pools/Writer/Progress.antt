-- ===== src/Pools/Writer/Progress.antt =====
-- The write slot hands out one connection, and forgets no thread that waits (honker-core/src/lib.rs).
use honker.Pools.Writer.{
  run, release, Call, go_on, looping, try_acquire, Choice, blocked, closing, releasing, set_at,
  heard, call_at, outside, holding, move, acquire, trying, close, step_of, step, Threads,
}
use honker.Pools.Writer.Tally.{
  tally, waits, loops, closes, tally-set_at, held, wake_all-tally, wake_one-tally,
}
use honker.Base.{
  ℕ, ◌+◌, ◌≤◌, ◌<◌, ◌≡◌, ◌⊎◌, Bool, true, false, Option, none, some, List, arith, refl, [], ◌∷◌,
}

abbrev pub in_slot : Option ℕ → ℕ
in_slot none = 0
in_slot (some conn) = 1

-- The threads that wait, go round, hold a connection and close, and the connections in the slot.
-- One connection is in the slot or held, until `close`; then at most one. While a thread waits,
-- `close` is about to wake it, or the connection is held, or another thread goes round to take it.
abbrev pub IsShared : (waiting going holders closers slot : ℕ) → (closed : Bool) → Type 0
IsShared b l h k s true = (s + h ≤ 1) × ((b ≡ 0) ⊎ (0 < k))
IsShared b l h k s false = (s + h ≡ 1) × (k ≡ 0) × ((b ≡ 0) ⊎ ((s ≡ 0) ⊎ (0 < l)))

abbrev pub IsSound : Option ℕ → Bool → List Call → Type 0
IsSound slot closed cs =
    IsShared (tally waits cs) (tally loops cs) (tally held cs) (tally closes cs) (in_slot slot)
      closed

-- What changes when a thread at `old` comes to stand at `new`.
tallies :
    (i : ℕ) (new old : Call) (cs : List Call)
    → call_at i cs ≡ some old
    → (tally waits (set_at i new cs) + waits old ≡ tally waits cs + waits new)
      × (tally loops (set_at i new cs) + loops old ≡ tally loops cs + loops new)
      × (tally held (set_at i new cs) + held old ≡ tally held cs + held new)
      × (tally closes (set_at i new cs) + closes old ≡ tally closes cs + closes new)
tallies i new old cs h = (
  tally-set_at waits i new old cs h,
  tally-set_at loops i new old cs h,
  tally-set_at held i new old cs h,
  tally-set_at closes i new old cs h,
)

move-IsSound :
    (i : ℕ) (choice : Choice) (call : Call) (slot : Option ℕ) (closed : Bool) (cs : List Call)
    → call_at i cs ≡ some call
    → IsSound slot closed cs
    → let m = move choice call (record { slot = slot; closed = closed }) in
      IsSound m.writer.slot m.writer.closed (heard m.signal (set_at i m.call cs))
move-IsSound i acquire outside slot true cs h s = ground (arith, tallies i looping outside cs h)
move-IsSound i acquire outside slot false cs h s = ground (arith, tallies i looping outside cs h)
move-IsSound i try_acquire outside slot true cs h s = ground (arith, tallies i outside outside cs h)
move-IsSound i try_acquire outside slot false cs h s = ground (arith, tallies i trying outside cs h)
move-IsSound i close outside slot true cs h s = ground (arith, tallies i closing outside cs h)
move-IsSound i close outside slot false cs h s = ground (arith, tallies i closing outside cs h)
move-IsSound i go_on looping slot true cs h s = ground (arith, tallies i outside looping cs h)
move-IsSound i go_on looping none false cs h s = ground (arith, tallies i blocked looping cs h)
move-IsSound i go_on looping (some conn) false cs h s =
    ground (arith, tallies i (holding conn) looping cs h)
move-IsSound i go_on trying none true cs h s = ground (arith, tallies i outside trying cs h)
move-IsSound i go_on trying none false cs h s = ground (arith, tallies i outside trying cs h)
move-IsSound i go_on trying (some conn) true cs h s =
    ground (arith, tallies i (holding conn) trying cs h)
move-IsSound i go_on trying (some conn) false cs h s =
    ground (arith, tallies i (holding conn) trying cs h)
move-IsSound i release (holding conn) slot true cs h s =
    ground (arith, tallies i outside (holding conn) cs h)
move-IsSound i release (holding conn) slot false cs h s =
    ground (arith, tallies i (releasing conn) (holding conn) cs h)
move-IsSound i go_on (releasing conn) slot true cs h s =
    ground (arith, tallies i outside (releasing conn) cs h, wake_one-tally (set_at i outside cs))
move-IsSound i go_on (releasing conn) slot false cs h s =
    ground (arith, tallies i outside (releasing conn) cs h, wake_one-tally (set_at i outside cs))
move-IsSound i go_on closing slot true cs h s =
    ground (arith, tallies i outside closing cs h, wake_all-tally (set_at i outside cs))
move-IsSound i go_on closing slot false cs h s =
    ground (arith, tallies i outside closing cs h, wake_all-tally (set_at i outside cs))
move-IsSound i choice call slot true cs h s = ground (arith, tallies i call call cs h)
move-IsSound i choice call slot false cs h s = ground (arith, tallies i call call cs h)

step-IsSound :
    (i : ℕ) (choice : Choice) (s : Threads)
    → IsSound s.writer.slot s.writer.closed s.calls
    → IsSound (step i choice s).writer.slot (step i choice s).writer.closed (step i choice s).calls
unfolding step
step-IsSound i choice s sound = go (call_at i s.calls) refl
  where
    go :
        (o : Option Call)
        → call_at i s.calls ≡ o
        → IsSound
            (step_of i choice s o).writer.slot
            (step_of i choice s o).writer.closed
            (step_of i choice s o).calls
    go none h = sound
    go (some call) h = move-IsSound i choice call s.writer.slot s.writer.closed s.calls h sound

-- In whatever order threads take their steps, from a state that is sound: until `close` the one
-- connection is in the slot or held by one thread, and after it there is one at most. A thread that
-- waits in `acquire` is not forgotten: a call of `close` is still to wake it, or the connection is
-- held, or another thread is in `acquire` and about to look into the slot.
pub run-IsSound :
    (steps : List (ℕ × Choice)) (s : Threads)
    → IsSound s.writer.slot s.writer.closed s.calls
    → IsSound (run steps s).writer.slot (run steps s).writer.closed (run steps s).calls
unfolding run
run-IsSound [] s sound = sound
run-IsSound ((i, choice) ∷ rest) s sound =
    run-IsSound rest (step i choice s) (step-IsSound i choice s sound)
