-- ===== src/Pools/Readers.antt =====
-- The reader pool: `Readers` with `acquire`, `release` and `close` (honker-core/src/lib.rs), called by
-- any number of threads. The calls are interleaved in steps: what a call does with the pool's mutex
-- held is one step, and each other access to `closed` or `outstanding` is one. Whether a connection
-- can be opened is a choice of the environment.
pub mod Bounds
use honker.Base.{
  ℕ, zero, suc, ◌+◌, ◌-◌, Bool, true, false, Option, none, some, List, [], ◌∷◌, map, if◌then◌else◌,
  ltb, ◌==◌,
}

pub record Readers : Type 0 where
  pub pool : List ℕ  -- the last one first
  pub outstanding : ℕ
  pub max : ℕ
  pub closed : Bool

-- Where a thread stands. A connection is a number.
pub data Visit : Type 0 where
  away : Visit
  at_loop : Visit  -- in `acquire`, at the head of the loop
  tested : Visit  -- past the test of `closed`
  waiting : Visit  -- at the wait
  opening : Visit  -- before `open_conn`, with a slot reserved
  opened : (conn : ℕ) → Visit  -- before the second test of `closed`
  failed_open : Visit  -- before the slot is given back
  undoing : (conn : ℕ) → Visit  -- before the slot is given back, with the new connection still open
  dropping : (conn : ℕ) → Visit  -- before the drop of the new connection
  using : (conn : ℕ) → Visit
  returning : (conn : ℕ) → Visit  -- in `release`, past the test of `closed`
  shutting : Visit  -- in `close`, past the store

pub data Turn : Type 0 where
  acquire release close go_on open_fails : Turn
  opens : (conn : ℕ) → Turn

pub data Notice : Type 0 where
  none_woken one_woken all_woken : Notice

pub record Turned : Type 0 where
  pub visit : Visit
  pub readers : Readers
  pub notice : Notice

abbrev pub new_readers : ℕ → Readers
new_readers n = record { pool = []; outstanding = 0; max = if n == 0 then 1 else n; closed = false }

abbrev pub to : Visit → Readers → Turned
to visit r = record { visit = visit; readers = r; notice = none_woken }

abbrev pub reserve : Readers → Turned
reserve r =
    if ltb r.outstanding r.max
    then to opening (record r { outstanding = r.outstanding + 1 })
    else to waiting r

-- With the pool's mutex held.
abbrev pub pop_or_reserve : Readers → List ℕ → Turned
pop_or_reserve r [] = reserve r
pop_or_reserve r (conn ∷ rest) = to (using conn) (record r { pool = rest })

abbrev pub give_back : Visit → Readers → Turned
give_back visit r = to visit (record r { outstanding = r.outstanding - 1 })

abbrev pub push_back : ℕ → Readers → Turned
push_back conn r = record {
  visit = away;
  readers = record r { pool = conn ∷ r.pool };
  notice = one_woken;
}

abbrev pub clear_pool : Readers → Turned
clear_pool r = record { visit = away; readers = record r { pool = [] }; notice = all_woken }

-- A turn that does not fit where the thread stands changes nothing.
abbrev pub turn : Turn → Visit → Readers → Turned
turn acquire away r = to at_loop r
turn close away r = to shutting (record r { closed = true })
turn go_on at_loop r = if r.closed then to away r else to tested r
turn go_on tested r = pop_or_reserve r r.pool
turn (opens conn) opening r = to (opened conn) r
turn open_fails opening r = to failed_open r
turn go_on failed_open r = give_back away r
turn go_on (opened conn) r = if r.closed then to (undoing conn) r else to (using conn) r
turn go_on (undoing conn) r = give_back (dropping conn) r
turn go_on (dropping conn) r = to away r
turn release (using conn) r = if r.closed then to away r else to (returning conn) r
turn go_on (returning conn) r = push_back conn r
turn go_on shutting r = clear_pool r
turn _ visit r = to visit r

abbrev pub roused : Visit → Visit
roused waiting = at_loop
roused visit = visit

-- One thread that waits, the first of them, goes on.
unfoldable pub rouse_one : List Visit → List Visit
rouse_one [] = []
rouse_one (waiting ∷ vs) = at_loop ∷ vs
rouse_one (v ∷ vs) = v ∷ rouse_one vs

abbrev pub noticed : Notice → List Visit → List Visit
noticed none_woken vs = vs
noticed one_woken vs = rouse_one vs
noticed all_woken vs = map roused vs

pub record Visitors : Type 0 where
  pub readers : Readers
  pub visits : List Visit

abbrev pub put_at : ℕ → Visit → List Visit → List Visit
put_at i visit [] = []
put_at zero visit (v ∷ vs) = visit ∷ vs
put_at (suc i) visit (v ∷ vs) = v ∷ put_at i visit vs

abbrev pub visit_at : ℕ → List Visit → Option Visit
visit_at i [] = none
visit_at zero (v ∷ vs) = some v
visit_at (suc i) (v ∷ vs) = visit_at i vs

abbrev pub after_turn : ℕ → Turned → List Visit → Visitors
after_turn i t vs = record { readers = t.readers; visits = noticed t.notice (put_at i t.visit vs) }

abbrev pub take_turn_of : ℕ → Turn → Visitors → Option Visit → Visitors
take_turn_of i what s none = s
take_turn_of i what s (some visit) = after_turn i (turn what visit s.readers) s.visits

unfoldable pub take_turn : ℕ → Turn → Visitors → Visitors
unfolding rouse_one
take_turn i what s = take_turn_of i what s (visit_at i s.visits)

-- The threads take turns in any order.
unfoldable pub take_turns : List (ℕ × Turn) → Visitors → Visitors
unfolding take_turn
take_turns [] s = s
take_turns ((i, what) ∷ rest) s = take_turns rest (take_turn i what s)
