-- ===== src/Savepoint/Sqlite.antt =====
-- What SQLite documents of the commands that `in_savepoint` runs (honker-core/src/honker_ops.rs).
use honker.Savepoint.{Connection, rollback, savepoint, rollback_to, release, Command}
use honker.Action.{Error}
use honker.Base.{◌≡◌, ◌⊎◌, true, false, none, some, List, [], ◌∷◌}

-- The database before the transaction.
abbrev pub bottom {ℓ} : {S : Type ℓ} → S → List S → S
bottom d [] = d
bottom d (s ∷ rest) = bottom s rest

module _ {C S : Type 0} (conn : Connection C S) where
  -- The whole transaction is rolled back.
  abbrev pub RolledBack : C → C → Type 0
  RolledBack c c' = (conn.stack c' ≡ []) × (conn.db c' ≡ bottom (conn.db c) (conn.stack c))

  abbrev pub Same : C → C → Type 0
  Same c c' = (conn.stack c' ≡ conn.stack c) × (conn.db c' ≡ conn.db c)

  -- As before a savepoint that was opened on the database `d` over the stack `st`: there, or, where
  -- SQLite may do so itself (`automatic`), with the whole transaction around it rolled back.
  abbrev pub Restored : Type 0 → S → List S → C → Type 0
  Restored automatic d st c =
      ((conn.stack c ≡ st) × (conn.db c ≡ d))
      ⊎ (automatic × ((conn.stack c ≡ []) × (conn.db c ≡ bottom d st)))

-- Without a transaction the connection is in autocommit mode. A command that fails does nothing, or,
-- where `automatic` holds, SQLite rolls the whole transaction back itself.
pub record IsSqlite {C S : Type 0} (automatic : Type 0) (conn : Connection C S) : Type 0 where
  pub autocommit_on : (c : C) → conn.stack c ≡ [] → conn.is_autocommit c ≡ true
  pub autocommit_off :
      (c : C) (s : S) (rest : List S) → conn.stack c ≡ s ∷ rest → conn.is_autocommit c ≡ false
  pub fails :
      (k : Command) (c c' : C) (e : Error)
      → conn.exec k c ≡ (some e, c')
      → Same conn c c' ⊎ (automatic × RolledBack conn c c')
  pub opens :
      (c c' : C)
      → conn.exec savepoint c ≡ (none, c')
      → (conn.stack c' ≡ conn.db c ∷ conn.stack c) × (conn.db c' ≡ conn.db c)
  pub releases :
      (c c' : C) (s : S) (rest : List S)
      → conn.stack c ≡ s ∷ rest
      → conn.exec release c ≡ (none, c')
      → (conn.stack c' ≡ rest) × (conn.db c' ≡ conn.db c)
  pub rolls_to :
      (c c' : C) (s : S) (rest : List S)
      → conn.stack c ≡ s ∷ rest
      → conn.exec rollback_to c ≡ (none, c')
      → (conn.stack c' ≡ s ∷ rest) × (conn.db c' ≡ s)
  pub rolls_back : (c c' : C) → conn.exec rollback c ≡ (none, c') → RolledBack conn c c'
