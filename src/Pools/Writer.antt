-- ===== src/Pools/Writer.antt =====
-- The write slot: `Writer` with `acquire`, `try_acquire`, `release` and `close`
-- (honker-core/src/lib.rs), called by any number of threads. The calls are interleaved in steps: what
-- a call does with the mutex held is one step, and each access to `closed` without the mutex is one.
pub mod Tally
pub mod Progress
use honker.Base.{
  ℕ, zero, suc, Bool, true, false, Option, none, some, List, [], ◌∷◌, map, if◌then◌else◌,
}

pub record Writer : Type 0 where
  pub slot : Option ℕ
  pub closed : Bool

abbrev pub new_writer : ℕ → Writer
new_writer conn = record { slot = some conn; closed = false }

-- Where a thread stands. A connection is a number.
pub data Call : Type 0 where
  outside : Call
  looping : Call  -- in `acquire`, before a round of the loop
  blocked : Call  -- in `acquire`, at the wait
  trying : Call  -- in `try_acquire`, past the test of `closed`
  holding : (conn : ℕ) → Call
  releasing : (conn : ℕ) → Call  -- in `release`, past the test of `closed`
  closing : Call  -- in `close`, past the store

-- What a thread does next: a call that it makes, or the next step of the one that it is in.
pub data Choice : Type 0 where
  acquire try_acquire release close go_on : Choice

pub data Signal : Type 0 where
  quiet notify_one notify_all : Signal

pub record Moved : Type 0 where
  pub call : Call
  pub writer : Writer
  pub signal : Signal

abbrev pub becomes : Call → Writer → Moved
becomes call writer = record { call = call; writer = writer; signal = quiet }

-- `take` of the slot; what the thread does when it is empty.
abbrev pub take_slot : Call → Writer → Option ℕ → Moved
take_slot otherwise w none = becomes otherwise w
take_slot otherwise w (some conn) = becomes (holding conn) (record w { slot = none })

abbrev pub acquire_round : Writer → Moved
acquire_round w = if w.closed then becomes outside w else take_slot blocked w w.slot

abbrev pub try_check : Writer → Moved
try_check w = if w.closed then becomes outside w else becomes trying w

-- After `close` the connection is dropped.
abbrev pub release_check : ℕ → Writer → Moved
release_check conn w = if w.closed then becomes outside w else becomes (releasing conn) w

abbrev pub release_store : ℕ → Writer → Moved
release_store conn w = record {
  call = outside;
  writer = record w { slot = some conn };
  signal = notify_one;
}

abbrev pub close_store : Writer → Moved
close_store w = becomes closing (record w { closed = true })

abbrev pub close_take : Writer → Moved
close_take w = record { call = outside; writer = record w { slot = none }; signal = notify_all }

-- A choice that does not fit where the thread stands changes nothing.
abbrev pub move : Choice → Call → Writer → Moved
move acquire outside w = becomes looping w
move try_acquire outside w = try_check w
move close outside w = close_store w
move go_on looping w = acquire_round w
move go_on trying w = take_slot outside w w.slot
move release (holding conn) w = release_check conn w
move go_on (releasing conn) w = release_store conn w
move go_on closing w = close_take w
move _ call w = becomes call w

abbrev pub woken : Call → Call
woken blocked = looping
woken call = call

-- One thread that waits, the first of them, goes on.
unfoldable pub wake_one : List Call → List Call
wake_one [] = []
wake_one (blocked ∷ cs) = looping ∷ cs
wake_one (c ∷ cs) = c ∷ wake_one cs

abbrev pub heard : Signal → List Call → List Call
heard quiet cs = cs
heard notify_one cs = wake_one cs
heard notify_all cs = map woken cs

pub record Threads : Type 0 where
  pub writer : Writer
  pub calls : List Call

abbrev pub set_at : ℕ → Call → List Call → List Call
set_at i call [] = []
set_at zero call (c ∷ cs) = call ∷ cs
set_at (suc i) call (c ∷ cs) = c ∷ set_at i call cs

abbrev pub call_at : ℕ → List Call → Option Call
call_at i [] = none
call_at zero (c ∷ cs) = some c
call_at (suc i) (c ∷ cs) = call_at i cs

abbrev pub after_move : ℕ → Moved → List Call → Threads
after_move i m cs = record { writer = m.writer; calls = heard m.signal (set_at i m.call cs) }

abbrev pub step_of : ℕ → Choice → Threads → Option Call → Threads
step_of i choice s none = s
step_of i choice s (some call) = after_move i (move choice call s.writer) s.calls

unfoldable pub step : ℕ → Choice → Threads → Threads
unfolding wake_one
step i choice s = step_of i choice s (call_at i s.calls)

-- The threads take steps in any order.
unfoldable pub run : List (ℕ × Choice) → Threads → Threads
unfolding step
run [] s = s
run ((i, choice) ∷ rest) s = run rest (step i choice s)
