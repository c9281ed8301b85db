-- ===== src/Action.antt =====
-- Results of fallible calls (`rusqlite::Result`), and operations that read and write a database.
pub mod Keeps
pub mod Outcome

-- One constructor for each way in which an operation of the engine fails; the texts of the messages
-- are not modelled.
pub data Error : Type 0 where
  max_attempts_too_small : Error
  constraint : Error
  full : Error
  invalid_column : Error
  copied_not_deleted : Error
  not_positive : Error
  bad_schedule : Error
  no_boundary : Error
  bad_timestamp : Error
  interval_overflow : Error
  panicked : Error
  busy : Error
  bad_argument : Error
  no_such_function : Error
  outbox_failed : Error
  duplicate_column : Error

pub data Result {ℓ} (A : Type ℓ) : Type ℓ where
  ok : A → Result A
  err : Error → Result A

-- What was written before a failure stays written, so the state comes back beside an error too.
abbrev pub Action {ℓ} : Type ℓ → Type ℓ → Type ℓ
Action S A = S → Result A × S

module _ {ℓ} {S A : Type ℓ} where
  abbrev pub pure : A → Action S A
  pure a s = (ok a, s)

  abbrev pub raise : Error → Action S A
  raise e s = (err e, s)

  abbrev pub lift : Result A → Action S A
  lift r s = (r, s)

  abbrev pub settle : S → Result A → S → Result A × S
  settle s (ok a) s' = (ok a, s')
  settle s (err e) s' = (err e, s)

  -- What `in_savepoint` promises: the work of a body that fails is undone.
  unfoldable pub in_savepoint : Action S A → Action S A
  in_savepoint body s = let (r, s') = body s in settle s r s'

module _ {ℓ} {S A B : Type ℓ} where
  abbrev pub resume : Result A → (A → Action S B) → Action S B
  resume (ok a) f s = f a s
  resume (err e) f s = (err e, s)

  infixl 5 ◌>>=◌ ◌>>◌
  abbrev pub ◌>>=◌ : Action S A → (A → Action S B) → Action S B
  ◌>>=◌ m f s = let (r, s') = m s in resume r f s'

  abbrev pub ◌>>◌ : Action S A → Action S B → Action S B
  m >> n = m >>= λ _. n
