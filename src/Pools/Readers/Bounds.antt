-- ===== src/Pools/Readers/Bounds.antt =====
-- How many reader connections are open (honker-core/src/lib.rs).
use honker.Pools.Readers.{
  take_turns, opened, opens, roused, waiting, undoing, shutting, visit_at, tested, opening,
  returning, Turn, release, Visit, Readers, using, away, at_loop, turn, close, acquire, Visitors,
  rouse_one, open_fails, put_at, go_on, after_turn, pop_or_reserve, take_turn_of, take_turn,
  failed_open, dropping,
}
use honker.Base.{
  ℕ, zero, suc, ◌+◌, ◌≤◌, ◌≡◌, refl, sym, ap, some, List, [], ◌∷◌, map, arith, length, inl, inr,
  Option, none, ltb, Bool-cases, false,
}

-- A reserved slot, and the connection that a thread has on it.
abbrev pub has_slot : Visit → ℕ
has_slot opening = 1
has_slot (opened conn) = 1
has_slot failed_open = 1
has_slot (undoing conn) = 1
has_slot (using conn) = 1
has_slot (returning conn) = 1
has_slot _ = 0

-- Threads that found the pool closed after they had opened a connection.
abbrev pub is_undone : Visit → ℕ
is_undone (undoing conn) = 1
is_undone (dropping conn) = 1
is_undone _ = 0

abbrev pub undone : List Visit → ℕ
undone [] = 0
undone (v ∷ vs) = is_undone v + undone vs

abbrev pub slots : List Visit → ℕ
slots [] = 0
slots (v ∷ vs) = has_slot v + slots vs

-- Each connection that is open, in the pool or with a thread, has its own reserved slot, but one that is
-- about to be dropped, and there are `n` slots. Before `close` none is about to be dropped.
abbrev pub IsBounded : ℕ → Visitors → Type 0
IsBounded n s =
    (length s.readers.pool + slots s.visits ≤ s.readers.outstanding)
    × (s.readers.outstanding ≤ n)
    × (s.readers.max ≡ n)
    × (s.readers.closed ≡ false → undone s.visits ≡ 0)

slots-put_at :
    (i : ℕ) (new old : Visit) (vs : List Visit)
    → visit_at i vs ≡ some old
    → slots (put_at i new vs) + has_slot old ≡ slots vs + has_slot new
slots-put_at i new old [] h = absurd (ground (arith, h))
slots-put_at zero new old (v ∷ vs) h =
    let same : v ≡ old = ground (arith, h) in rw (sym same) (omega arith)
slots-put_at (suc i) new old (v ∷ vs) h =
    let rest = slots-put_at i new old vs h in omega (arith, rest)

undone-put_at :
    (i : ℕ) (new old : Visit) (vs : List Visit)
    → visit_at i vs ≡ some old
    → undone (put_at i new vs) + is_undone old ≡ undone vs + is_undone new
undone-put_at i new old [] h = absurd (ground (arith, h))
undone-put_at zero new old (v ∷ vs) h =
    let same : v ≡ old = ground (arith, h) in rw (sym same) (omega arith)
undone-put_at (suc i) new old (v ∷ vs) h =
    let rest = undone-put_at i new old vs h in omega (arith, rest)

undone-rouse_one : (vs : List Visit) → undone (rouse_one vs) ≡ undone vs
unfolding rouse_one
undone-rouse_one [] = refl
undone-rouse_one (waiting ∷ vs) = refl
undone-rouse_one (v ∷ vs) = ap (λ n. is_undone v + n) (undone-rouse_one vs)

undone-roused : (vs : List Visit) → undone (map roused vs) ≡ undone vs
undone-roused [] = refl
undone-roused (waiting ∷ vs) = ap (λ n. 0 + n) (undone-roused vs)
undone-roused (v ∷ vs) = ap (λ n. is_undone v + n) (undone-roused vs)

slots-rouse_one : (vs : List Visit) → slots (rouse_one vs) ≡ slots vs
unfolding rouse_one
slots-rouse_one [] = refl
slots-rouse_one (waiting ∷ vs) = refl
slots-rouse_one (v ∷ vs) = ap (λ n. has_slot v + n) (slots-rouse_one vs)

slots-roused : (vs : List Visit) → slots (map roused vs) ≡ slots vs
slots-roused [] = refl
slots-roused (waiting ∷ vs) = ap (λ n. 0 + n) (slots-roused vs)
slots-roused (v ∷ vs) = ap (λ n. has_slot v + n) (slots-roused vs)

pop-IsBounded :
    (n i : ℕ) (r : Readers) (pool : List ℕ) (vs : List Visit)
    → visit_at i vs ≡ some tested
    → r.pool ≡ pool
    → IsBounded n (record { readers = r; visits = vs })
    → IsBounded n (after_turn i (pop_or_reserve r pool) vs)
pop-IsBounded n i r (conn ∷ rest) vs h e b =
    ground
      (arith, slots-put_at i (using conn) tested vs h, undone-put_at i (using conn) tested vs h, e)
pop-IsBounded n i r [] vs h e b = elim (Bool-cases (ltb r.outstanding r.max)) [
  | inl k ↦ rw k (
      ground (arith, slots-put_at i opening tested vs h, undone-put_at i opening tested vs h, k, e))
  | inr k ↦
      rw k
        (ground (arith, slots-put_at i waiting tested vs h, undone-put_at i waiting tested vs h, e))
]

turn-IsBounded :
    (n i : ℕ) (what : Turn) (visit : Visit) (r : Readers) (vs : List Visit)
    → visit_at i vs ≡ some visit
    → IsBounded n (record { readers = r; visits = vs })
    → IsBounded n (after_turn i (turn what visit r) vs)
turn-IsBounded n i acquire away r vs h b =
    ground (arith, slots-put_at i at_loop away vs h, undone-put_at i at_loop away vs h)
turn-IsBounded n i close away r vs h b =
    ground (arith, slots-put_at i shutting away vs h, undone-put_at i shutting away vs h)
turn-IsBounded n i go_on at_loop r vs h b = ground (
  arith,
  slots-put_at i away at_loop vs h,
  undone-put_at i away at_loop vs h,
  slots-put_at i tested at_loop vs h,
  undone-put_at i tested at_loop vs h,
)
turn-IsBounded n i go_on tested r vs h b = pop-IsBounded n i r r.pool vs h refl b
turn-IsBounded n i (opens conn) opening r vs h b =
    ground
      (arith, slots-put_at i (opened conn) opening vs h, undone-put_at i (opened conn) opening vs h)
turn-IsBounded n i open_fails opening r vs h b =
    ground
      (arith, slots-put_at i failed_open opening vs h, undone-put_at i failed_open opening vs h)
turn-IsBounded n i go_on failed_open r vs h b =
    ground (arith, slots-put_at i away failed_open vs h, undone-put_at i away failed_open vs h)
turn-IsBounded n i go_on (opened conn) r vs h b = ground (
  arith,
  slots-put_at i (undoing conn) (opened conn) vs h,
  undone-put_at i (undoing conn) (opened conn) vs h,
  slots-put_at i (using conn) (opened conn) vs h,
  undone-put_at i (using conn) (opened conn) vs h,
)
turn-IsBounded n i go_on (undoing conn) r vs h b = ground (
  arith,
  slots-put_at i (dropping conn) (undoing conn) vs h,
  undone-put_at i (dropping conn) (undoing conn) vs h,
)
turn-IsBounded n i go_on (dropping conn) r vs h b =
    ground
      (arith, slots-put_at i away (dropping conn) vs h, undone-put_at i away (dropping conn) vs h)
turn-IsBounded n i release (using conn) r vs h b = ground (
  arith,
  slots-put_at i away (using conn) vs h,
  undone-put_at i away (using conn) vs h,
  slots-put_at i (returning conn) (using conn) vs h,
  undone-put_at i (returning conn) (using conn) vs h,
)
turn-IsBounded n i go_on (returning conn) r vs h b = ground (
  arith,
  slots-put_at i away (returning conn) vs h,
  undone-put_at i away (returning conn) vs h,
  slots-rouse_one (put_at i away vs),
  undone-rouse_one (put_at i away vs),
)
turn-IsBounded n i go_on shutting r vs h b = ground (
  arith,
  slots-put_at i away shutting vs h,
  undone-put_at i away shutting vs h,
  slots-roused (put_at i away vs),
  undone-roused (put_at i away vs),
)
turn-IsBounded n i what visit r vs h b =
    ground (arith, slots-put_at i visit visit vs h, undone-put_at i visit visit vs h)

take_turn-IsBounded :
    (n i : ℕ) (what : Turn) (s : Visitors) → IsBounded n s → IsBounded n (take_turn i what s)
unfolding take_turn
take_turn-IsBounded n i what s b = go (visit_at i s.visits) refl
  where
    go : (o : Option Visit) → visit_at i s.visits ≡ o → IsBounded n (take_turn_of i what s o)
    go none h = b
    go (some visit) h = turn-IsBounded n i what visit s.readers s.visits h b

-- In whatever order threads take their turns, and whichever connections can be opened: the
-- connections that are open, in the pool or with a thread, and those about to be opened are never more
-- than the slots that are reserved, and these never more than `n`, if it is so at first. The connections
-- that a thread drops because `close` overtook it are not counted once their slot is given back, and
-- while the pool is not closed there are none of them.
pub take_turns-IsBounded :
    (n : ℕ) (turns : List (ℕ × Turn)) (s : Visitors)
    → IsBounded n s
    → IsBounded n (take_turns turns s)
unfolding take_turns
take_turns-IsBounded n [] s b = b
take_turns-IsBounded n ((i, what) ∷ rest) s b =
    take_turns-IsBounded n rest (take_turn i what s) (take_turn-IsBounded n i what s b)
