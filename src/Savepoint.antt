-- ===== src/Savepoint.antt =====
-- The savepoint around an operation: `in_savepoint`, `UnwindUndo`, `undo_savepoint` and
-- `undo_savepoint_frame` (honker-core/src/honker_ops.rs). SQLite is a parameter: `Connection` has the
-- calls that are made on it. The names of savepoints and the texts of errors are not modelled.
pub mod Sqlite
pub mod Undo
pub mod Refines
use honker.Action.{Error}
use honker.Base.{Bool, not, ◌&&◌, Option, none, some, List, [], ◌∷◌, ◌++◌, if◌then◌else◌}

pub data Command : Type 0 where
  savepoint release rollback_to rollback : Command

-- A command gives the error that it fails with, if it fails. `stack` holds what the database was when
-- the transaction and each savepoint in it were opened, the innermost first.
pub record Connection (C S : Type 0) : Type 0 where
  pub is_autocommit : C → Bool
  pub exec : Command → C → Option Error × C
  pub db : C → S
  pub stack : C → List S

pub data UndoFailure : Type 0 where
  rollback_to_failed : Error → UndoFailure
  rollback_failed : Error → UndoFailure

-- The error that is handed back: the cause, and what failed in the undo.
pub record Failure : Type 0 where
  pub cause : Error
  pub additionally : List UndoFailure

-- How a body ends: with a value, with an error, or by a panic that unwinds it.
pub data Outcome {ℓ} (A : Type ℓ) : Type ℓ where
  returned : A → Outcome A
  failed : Error → Outcome A
  unwound : Outcome A

-- How `in_savepoint` ends. A panic goes on after the undo, whose failures are printed.
pub data Ended {ℓ} (A : Type ℓ) : Type ℓ where
  done : A → Ended A
  refused : Failure → Ended A
  unwinding : (printed : List UndoFailure) → Ended A

module _ {C S : Type 0} (conn : Connection C S) where
  -- `execute_batch` of two commands stops at the first that fails.
  abbrev pub then_exec : Command → Option Error × C → Option Error × C
  then_exec k (none, c) = conn.exec k c
  then_exec k (some e, c) = (some e, c)

  abbrev pub noted : (Error → UndoFailure) → Option Error → List UndoFailure
  noted f none = []
  noted f (some e) = f e ∷ []

  abbrev pub after_rollback : List UndoFailure → Option Error × C → List UndoFailure × C
  after_rollback failures (none, c) = ([], c)
  after_rollback failures (some e, c) = (failures ++ rollback_failed e ∷ [], c)

  abbrev pub own_rollback : Bool → Option Error × C → List UndoFailure × C
  own_rollback owns_transaction (o, c) =
      let failures = noted rollback_to_failed o in
      if owns_transaction && not (conn.is_autocommit c)
      then after_rollback failures (conn.exec rollback c)
      else (failures, c)

  unfoldable pub undo_savepoint_frame : Bool → C → List UndoFailure × C
  undo_savepoint_frame owns_transaction c =
      if conn.is_autocommit c
      then ([], c)
      else own_rollback owns_transaction (then_exec release (conn.exec rollback_to c))

  module _ {ℓ} {A : Type ℓ} where
    abbrev pub undo_savepoint : Bool → Error → C → Ended A × C
    undo_savepoint owns_transaction cause c =
        let (failures, c') = undo_savepoint_frame owns_transaction c in
        (refused (record { cause = cause; additionally = failures }), c')

    abbrev pub released : Bool → A → Option Error × C → Ended A × C
    released owns_transaction a (none, c) = (done a, c)
    released owns_transaction a (some e, c) = undo_savepoint owns_transaction e c

    -- What follows the body. The drop of the guard that is still armed is the last line.
    abbrev pub after_body : Bool → Outcome A × C → Ended A × C
    after_body owns_transaction (returned a, c) = released owns_transaction a (conn.exec release c)
    after_body owns_transaction (failed e, c) = undo_savepoint owns_transaction e c
    after_body owns_transaction (unwound, c) =
        let (failures, c') = undo_savepoint_frame owns_transaction c in (unwinding failures, c')

    abbrev pub opened : Bool → (C → Outcome A × C) → Option Error × C → Ended A × C
    opened owns_transaction body (none, c) = after_body owns_transaction (body c)
    opened owns_transaction body (some e, c) =
        (refused (record { cause = e; additionally = [] }), c)

    unfoldable pub in_savepoint : (C → Outcome A × C) → C → Ended A × C
    unfolding undo_savepoint_frame
    in_savepoint body c = opened (conn.is_autocommit c) body (conn.exec savepoint c)
