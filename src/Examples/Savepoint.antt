-- ===== src/Examples/Savepoint.antt =====
-- A connection whose commands fail on demand, and calls of `in_savepoint` on it
-- (honker-core/src/honker_ops.rs).
use honker.Savepoint.{
  Connection, Command, savepoint, release, rollback_to, rollback, refused, returned, failed,
  Outcome, rollback_to_failed, rollback_failed, in_savepoint,
}
use honker.Action.{full, Error, Action, ok, constraint, err, Result}
use honker.Savepoint.Sqlite.{bottom, IsSqlite}
use honker.Base.{
  ℕ, ◌≡◌, Bool, true, false, Option, none, some, List, [], ◌∷◌, ◌+◌, refl, sym, ap, ◌∙◌, inl, inr,
  arith, ltb, Bool-cases, if◌then◌else◌,
}
use honker.Savepoint.Refines.{in_savepoint-AllOrNothing, AllOrNothing, Follows}

-- The database is one number; `faults` says which of the next commands fail.
record Db : Type 0 where
  now : ℕ
  saved : List ℕ
  faults : List Bool

abbrev perform : Command → ℕ → List ℕ → ℕ × List ℕ
perform savepoint n st = (n, n ∷ st)
perform release n [] = (n, [])
perform release n (s ∷ st) = (n, st)
perform rollback_to n [] = (n, [])
perform rollback_to n (s ∷ st) = (s, s ∷ st)
perform rollback n st = (bottom n st, [])

abbrev db_of : ℕ × List ℕ → List Bool → Db
db_of p fs = record { now = p.0; saved = p.1; faults = fs }

abbrev attempt : Command → ℕ × List ℕ → List Bool → Option Error × Db
attempt k p [] = (none, db_of (perform k p.0 p.1) [])
attempt k p (false ∷ fs) = (none, db_of (perform k p.0 p.1) fs)
attempt k p (true ∷ fs) = (some full, db_of p fs)

abbrev none_saved : List ℕ → Bool
none_saved [] = true
none_saved (s ∷ st) = false

-- Which commands fail is a part of the connection, or none does.
abbrev one_number : (Db → List Bool) → Connection Db ℕ
one_number faults_of = record {
  is_autocommit = λ c. none_saved c.saved;
  exec = λ k c. attempt k (c.now, c.saved) (faults_of c);
  db = λ c. c.now;
  stack = λ c. c.saved;
}

performed :
    (k : Command) (p : ℕ × List ℕ) (fs : List Bool) (c' : Db)
    → attempt k p fs ≡ (none, c')
    → (c'.saved ≡ (perform k p.0 p.1).1) × (c'.now ≡ (perform k p.0 p.1).0)
performed k p [] c' h =
    let e : db_of (perform k p.0 p.1) [] ≡ c' = ap (λ r. r.1) h in
    (ap (λ (d : Db). d.saved) (sym e), ap (λ (d : Db). d.now) (sym e))
performed k p (false ∷ fs) c' h =
    let e : db_of (perform k p.0 p.1) fs ≡ c' = ap (λ r. r.1) h in
    (ap (λ (d : Db). d.saved) (sym e), ap (λ (d : Db). d.now) (sym e))
performed k p (true ∷ fs) c' h = absurd (ground (arith, h))

not_performed :
    (k : Command) (p : ℕ × List ℕ) (fs : List Bool) (c' : Db) (x : Error)
    → attempt k p fs ≡ (some x, c')
    → (c'.saved ≡ p.1) × (c'.now ≡ p.0)
not_performed k p [] c' x h = absurd (ground (arith, h))
not_performed k p (false ∷ fs) c' x h = absurd (ground (arith, h))
not_performed k p (true ∷ fs) c' x h =
    let e : db_of p fs ≡ c' = ap (λ r. r.1) h in
    (ap (λ (d : Db). d.saved) (sym e), ap (λ (d : Db). d.now) (sym e))

one_number-IsSqlite : (faults_of : Db → List Bool) → IsSqlite ⊥ (one_number faults_of)
one_number-IsSqlite faults_of = record {
  autocommit_on = λ c e. ap none_saved e;
  autocommit_off = λ c s rest e. ap none_saved e;
  fails = λ k c c' x h. inl (not_performed k (c.now, c.saved) (faults_of c) c' x h);
  opens = λ c c' h. performed savepoint (c.now, c.saved) (faults_of c) c' h;
  releases = λ c c' s rest e h.
      let (a, b) = performed release (c.now, c.saved) (faults_of c) c' h in
      (
        a ∙ ap (λ st. (perform release c.now st).1) e,
        b ∙ ap (λ st. (perform release c.now st).0) e,
      );
  rolls_to = λ c c' s rest e h.
      let (a, b) = performed rollback_to (c.now, c.saved) (faults_of c) c' h in
      (
        a ∙ ap (λ st. (perform rollback_to c.now st).1) e,
        b ∙ ap (λ st. (perform rollback_to c.now st).0) e,
      );
  rolls_back = λ c c' h. performed rollback (c.now, c.saved) (faults_of c) c' h;
}

-- Adds five, and then refuses a number from ten on.
abbrev add_five : Action ℕ ℕ
add_five n = (if ltb n 10 then ok n else err constraint, n + 5)

abbrev outcome : Result ℕ → Outcome ℕ
outcome (ok a) = returned a
outcome (err e) = failed e

abbrev body : Db → Outcome ℕ × Db
body c = (outcome (add_five c.now).0, record c { now = c.now + 5 })

body-Follows :
    (faults_of : Db → List Bool) (c : Db) → Follows ⊥ (one_number faults_of) add_five c (body c)
body-Follows faults_of c = elim (Bool-cases (ltb c.now 10)) [
  | inl k ↦ rw k (ap (λ (b : Bool). (if b then ok c.now else err constraint, c.now + 5)) k, refl)
  | inr k ↦ rw k (ap (λ (b : Bool). if b then ok c.now else err constraint) k, inl refl)
]

abbrev quiet : ℕ → List Bool → Db
quiet n fs = record { now = n; saved = []; faults = fs }

abbrev faulty : Connection Db ℕ
faulty = one_number (λ c. c.faults)

-- The body fails, then ROLLBACK TO fails, and ROLLBACK is the way out.
way_out :
    in_savepoint faulty body (quiet 12 (false ∷ true ∷ []))
    ≡ (refused (record { cause = constraint; additionally = [] }), quiet 12 [])
unfolding in_savepoint
way_out = refl

-- ROLLBACK fails too.
loud : in_savepoint faulty body (quiet 12 (false ∷ true ∷ true ∷ [])) ≡ (
  refused (record {
    cause = constraint;
    additionally = rollback_to_failed full ∷ rollback_failed full ∷ [];
  }),
  record { now = 17; saved = 12 ∷ []; faults = [] },
)
unfolding in_savepoint
loud = refl

-- In a transaction of the caller's, whose work `3` over `1` stands after the failure.
abbrev nested : Db
nested = record { now = 12; saved = 3 ∷ 1 ∷ []; faults = [] }

in_savepoint-AllOrNothing_example :
    AllOrNothing ⊥ faulty add_five nested (in_savepoint faulty body nested)
in_savepoint-AllOrNothing_example =
    in_savepoint-AllOrNothing ⊥ faulty add_five body nested (one_number-IsSqlite (λ c. c.faults))
      (body-Follows (λ c. c.faults))
