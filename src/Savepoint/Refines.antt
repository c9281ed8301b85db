-- ===== src/Savepoint/Refines.antt =====
-- `in_savepoint` does what `Action.in_savepoint` says (honker-core/src/honker_ops.rs).
use honker.Savepoint.{
  in_savepoint, refused, released, returned, Outcome, failed, Ended, after_body, unwound, done,
  undo_savepoint_frame, Connection, unwinding, release, savepoint, opened,
}
use honker.Action.{in_savepoint as undone_on_error}
use honker.Action.{ok, Error, Action, err}
use honker.Savepoint.Sqlite.{RolledBack, Restored, bottom, IsSqlite}
use honker.Savepoint.Undo.{undo_savepoint_frame-Restored}
use honker.Base.{
  ◌≡◌, refl, sym, ap, ◌∙◌, ◌⊎◌, inl, inr, true, Option, none, some, List, [], ◌∷◌, arith,
}

module _ {C S A : Type 0} (automatic : Type 0) (conn : Connection C S) where
  -- How a body that runs on `c` ends: as the operation `op` on the database, with the savepoints that
  -- it opened closed again, or, where it fails, with the whole transaction rolled back by SQLite itself.
  abbrev pub Follows : Action S A → C → Outcome A × C → Type 0
  Follows op c (returned a, c') =
      (op (conn.db c) ≡ (ok a, conn.db c')) × (conn.stack c' ≡ conn.stack c)
  Follows op c (failed e, c') =
      ((op (conn.db c)).0 ≡ err e)
      × ((conn.stack c' ≡ conn.stack c) ⊎ (automatic × RolledBack conn c c'))
  Follows op c (unwound, c') = (conn.stack c' ≡ conn.stack c) ⊎ (automatic × RolledBack conn c c')

  -- All or nothing, unless a failure of the undo is reported.
  abbrev pub AllOrNothing : Action S A → C → Ended A × C → Type 0
  AllOrNothing op c (done a, c') =
      (undone_on_error op (conn.db c) ≡ (ok a, conn.db c')) × (conn.stack c' ≡ conn.stack c)
  AllOrNothing op c (refused f, c') =
      f.additionally ≡ [] → Restored conn automatic (conn.db c) (conn.stack c) c'
  AllOrNothing op c (unwinding fs, c') =
      fs ≡ [] → Restored conn automatic (conn.db c) (conn.stack c) c'

module _ {C S A : Type 0} (automatic : Type 0) (conn : Connection C S)
    (laws : IsSqlite automatic conn) (op : Action S A) (c c₁ : C)
    (opened_on : conn.stack c₁ ≡ conn.db c ∷ conn.stack c)
    (unchanged : conn.db c₁ ≡ conn.db c) where
  owner : conn.is_autocommit c ≡ true → conn.stack c ≡ []
  owner h = go (conn.stack c) refl
    where
      go : (st : List S) → conn.stack c ≡ st → conn.stack c ≡ []
      go [] e = e
      go (s ∷ rest) e = absurd (ground (arith, h, laws.autocommit_off c s rest e))

  kept :
      (c₂ : C)
      → (conn.stack c₂ ≡ conn.stack c₁) ⊎ (automatic × RolledBack conn c₁ c₂)
      → (conn.stack c₂ ≡ conn.db c ∷ conn.stack c)
        ⊎ (automatic × ((conn.stack c₂ ≡ []) × (conn.db c₂ ≡ bottom (conn.db c) (conn.stack c))))
  kept c₂ (inl s) = inl (s ∙ opened_on)
  kept c₂ (inr (au, (s, e))) = inr (au, (s, e ∙ ap (bottom (conn.db c₁)) opened_on))

  undone :
      (c₂ : C)
      → (conn.stack c₂ ≡ conn.db c ∷ conn.stack c)
        ⊎ (automatic × ((conn.stack c₂ ≡ []) × (conn.db c₂ ≡ bottom (conn.db c) (conn.stack c))))
      → (undo_savepoint_frame conn (conn.is_autocommit c) c₂).0 ≡ []
      → Restored conn automatic
          (conn.db c)
          (conn.stack c)
          (undo_savepoint_frame conn (conn.is_autocommit c) c₂).1
  undone =
      undo_savepoint_frame-Restored automatic conn laws (conn.db c) (conn.stack c)
        (conn.is_autocommit c) owner

  released-AllOrNothing :
      (a : A) (c₂ : C) (r : Option Error × C)
      → op (conn.db c₁) ≡ (ok a, conn.db c₂)
      → conn.stack c₂ ≡ conn.stack c₁
      → conn.exec release c₂ ≡ r
      → AllOrNothing automatic conn op c (released conn (conn.is_autocommit c) a r)
  unfolding undone_on_error
  released-AllOrNothing a c₂ (none, c₃) run same h =
      let (s, e) = laws.releases c₂ c₃ (conn.db c) (conn.stack c) (same ∙ opened_on) h in
      (rw (sym unchanged, run, sym e) refl, s)
  released-AllOrNothing a c₂ (some x, c₃) run same h =
      undone c₃ (elim (laws.fails release c₂ c₃ x h) [
        | inl k ↦ inl (k.0 ∙ same ∙ opened_on)
        | inr k ↦ inr (k.0, (k.1.0, k.1.1 ∙ ap (bottom (conn.db c₂)) (same ∙ opened_on)))
      ])

  body-AllOrNothing :
      (r : Outcome A × C)
      → Follows automatic conn op c₁ r
      → AllOrNothing automatic conn op c (after_body conn (conn.is_autocommit c) r)
  body-AllOrNothing (returned a, c₂) (run, same) = released-AllOrNothing a c₂ _ run same refl
  body-AllOrNothing (failed e, c₂) (run, k) = undone c₂ (kept c₂ k)
  body-AllOrNothing (unwound, c₂) k = undone c₂ (kept c₂ k)

-- With SQLite as documented, and a body that closes the savepoints that it opens: a call that returns
-- has done what `Action.in_savepoint` does with the body's operation, inside the caller's transaction. A
-- call that ends with an error or by a panic, without a report that its undo failed, has restored what
-- was there before, and the caller's transaction with its savepoints stands, unless SQLite has rolled
-- the whole transaction back itself. `automatic` says whether SQLite may do that; where it is empty, the
-- caller's transaction always stands.
pub in_savepoint-AllOrNothing :
    {C S A : Type 0} (automatic : Type 0) (conn : Connection C S) (op : Action S A)
    (body : C → Outcome A × C) (c : C)
    → IsSqlite automatic conn
    → ((c₁ : C) → Follows automatic conn op c₁ (body c₁))
    → AllOrNothing automatic conn op c (in_savepoint conn body c)
unfolding in_savepoint
in_savepoint-AllOrNothing automatic conn op body c laws follows = go (conn.exec savepoint c) refl
  where
    go :
        (r : Option Error × _)
        → conn.exec savepoint c ≡ r
        → AllOrNothing automatic conn op c (opened conn (conn.is_autocommit c) body r)
    go (none, c₁) h =
        let (s, e) = laws.opens c c₁ h in
        body-AllOrNothing automatic conn laws op c c₁ s e (body c₁) (follows c₁)
    go (some x, c₁) h = λ quiet. laws.fails savepoint c c₁ x h
