-- ===== src/Savepoint/Undo.antt =====
-- What `undo_savepoint_frame` leaves (honker-core/src/honker_ops.rs).
use honker.Savepoint.{
  undo_savepoint_frame, after_rollback, Command, rollback_failed, UndoFailure, rollback,
  rollback_to_failed, Connection, own_rollback, release, rollback_to, then_exec,
}
use honker.Action.{Error}
use honker.Savepoint.Sqlite.{Restored, IsSqlite, bottom}
use honker.Base.{
  ◌≡◌, refl, sym, ap, ◌∙◌, ◌⊎◌, inl, inr, Bool, true, Option, none, some, List, [], ◌∷◌, ◌++◌,
  arith, Bool-cases,
}

module _ {C S : Type 0} (automatic : Type 0) (conn : Connection C S)
    (laws : IsSqlite automatic conn) (d : S) (st : List S) (owns_transaction : Bool)
    (owns : owns_transaction ≡ true → st ≡ []) where
  -- The frames of a savepoint on `d` are open, or all are gone.
  abbrev Open : C → Type 0
  Open c = (conn.stack c ≡ d ∷ st) ⊎ (conn.stack c ≡ [])

  Settles : List UndoFailure × C → Type 0
  Settles (failures, c) = failures ≡ [] → Restored conn automatic d st c

  noted_is_loud :
      (f : Error → UndoFailure) (fs : List UndoFailure) (x : UndoFailure) → fs ++ x ∷ [] ≡ [] → ⊥
  noted_is_loud f [] x h = ground (arith, h)
  noted_is_loud f (y ∷ ys) x h = ground (arith, h)

  failed-Open :
      (k : Command) (c c' : C) (e : Error)
      → conn.stack c ≡ d ∷ st
      → conn.exec k c ≡ (some e, c')
      → Open c'
  failed-Open k c c' e s h = elim (laws.fails k c c' e h) [
    | inl same ↦ inl (same.0 ∙ s)
    | inr gone ↦ inr gone.1.0
  ]

  after_rollback-Settles :
      (c : C) (fs : List UndoFailure) (r : Option Error × C)
      → st ≡ []
      → conn.stack c ≡ d ∷ st
      → conn.exec rollback c ≡ r
      → Settles (after_rollback conn fs r)
  unfolding Settles
  after_rollback-Settles c fs (none, c') alone s h quiet =
      let (a, b) = laws.rolls_back c c' h in
      inl (a ∙ sym alone, b ∙ ap (bottom (conn.db c)) s ∙ ap (bottom d) alone)
  after_rollback-Settles c fs (some e, c') alone s h quiet =
      absurd (noted_is_loud rollback_failed fs (rollback_failed e) quiet)

  loud-Settles :
      (e : Error) (c : C) → Open c → Settles (own_rollback conn owns_transaction (some e, c))
  unfolding Settles
  loud-Settles e c (inr s) = elim (Bool-cases owns_transaction) [
    | inl o ↦ rw (laws.autocommit_on c s, o) (λ quiet. absurd (ground (arith, quiet)))
    | inr o ↦ rw (laws.autocommit_on c s, o) (λ quiet. absurd (ground (arith, quiet)))
  ]
  loud-Settles e c (inl s) = elim (Bool-cases owns_transaction) [
    | inl o ↦
        rw (laws.autocommit_off c d st s, o)
          (after_rollback-Settles c (rollback_to_failed e ∷ []) _ (owns o) s refl)
    | inr o ↦ rw (laws.autocommit_off c d st s, o) (λ quiet. absurd (ground (arith, quiet)))
  ]

  popped-Settles :
      (c : C)
      → conn.stack c ≡ st
      → conn.db c ≡ d
      → Settles (own_rollback conn owns_transaction (none, c))
  unfolding Settles
  popped-Settles c s e = elim (Bool-cases owns_transaction) [
    | inl o ↦ rw (laws.autocommit_on c (s ∙ owns o), o) (λ quiet. inl (s, e))
    | inr o ↦ rw o (λ quiet. inl (s, e))
  ]

  release-Settles :
      (c : C) (r : Option Error × C)
      → conn.stack c ≡ d ∷ st
      → conn.db c ≡ d
      → conn.exec release c ≡ r
      → Settles (own_rollback conn owns_transaction r)
  release-Settles c (none, c') s e h =
      let (a, b) = laws.releases c c' d st s h in popped-Settles c' a (b ∙ e)
  release-Settles c (some x, c') s e h = loud-Settles x c' (failed-Open release c c' x s h)

  rollback_to-Settles :
      (c : C) (r : Option Error × C)
      → conn.stack c ≡ d ∷ st
      → conn.exec rollback_to c ≡ r
      → Settles (own_rollback conn owns_transaction (then_exec conn release r))
  rollback_to-Settles c (none, c') s h =
      let (a, b) = laws.rolls_to c c' d st s h in release-Settles c' _ a b refl
  rollback_to-Settles c (some x, c') s h = loud-Settles x c' (failed-Open rollback_to c c' x s h)

  -- An undo that has nothing to report has restored what was there before the savepoint.
  pub undo_savepoint_frame-Restored :
      (c : C)
      → (conn.stack c ≡ d ∷ st) ⊎ (automatic × ((conn.stack c ≡ []) × (conn.db c ≡ bottom d st)))
      → (undo_savepoint_frame conn owns_transaction c).0 ≡ []
      → Restored conn automatic d st (undo_savepoint_frame conn owns_transaction c).1
  unfolding undo_savepoint_frame Settles
  undo_savepoint_frame-Restored c (inr (a, (s, e))) =
      rw (laws.autocommit_on c s) (λ quiet. inr (a, (s, e)))
  undo_savepoint_frame-Restored c (inl s) =
      rw (laws.autocommit_off c d st s) (rollback_to-Settles c _ s refl)
