-- ===== src/Queue/Moves.antt =====
-- `move_to_dead` (honker-core/src/honker_ops.rs) in one step.
use mathlib.Core.List.{append-nil}
use honker.Action.{err, ok, constraint}
use honker.Table.{count_if, count_if-select, select, reject, count_if-append}
use honker.Queue.Claim.{id_in, to_dead, move_to_dead, conflicts}
use honker.Queue.Rows.{Jobs, Row, has_id, tally, dead_has_id}
use honker.Base.Int.{ℤ}
use honker.Base.{ℕ, String, ◌≡◌, refl, Bool, List, [], ◌∷◌, ◌++◌, map, arith, if◌then◌else◌, length}

count-map-to_dead :
    (i : ℕ) (now : ℤ) (error : String) (rows : List Row)
    → count_if (dead_has_id i) (map (to_dead now error) rows) ≡ count_if (has_id i) rows
count-map-to_dead i now error [] = refl
count-map-to_dead i now error (r ∷ rs) = ground (arith, count-map-to_dead i now error rs)

reject_of_select_nil {ℓ} :
    {A : Type ℓ} (p : A → Bool) (xs : List A) → length (select p xs) ≡ 0 → reject p xs ≡ xs
reject_of_select_nil p [] h = refl
reject_of_select_nil p (x ∷ xs) h = ground (arith, reject_of_select_nil p xs)

map_of_nil {ℓ κ} :
    {A : Type ℓ} {B : Type κ} (f : A → B) (xs : List A) (ys : List B)
    → length xs ≡ 0
    → ys ++ map f xs ≡ ys
map_of_nil f [] ys h = append-nil ys
map_of_nil f (x ∷ xs) ys h = absurd (omega arith)

-- The database after a move of the rows that `chosen` selects.
abbrev pub moved : (Row → Bool) → ℤ → String → Jobs → Jobs
moved chosen now error db = record db {
  live = reject chosen db.live;
  dead = db.dead ++ map (to_dead now error) (select chosen db.live);
}

-- A move keeps how often an id stands in the two tables.
pub tally-moved :
    (chosen : Row → Bool) (now : ℤ) (error : String) (db : Jobs) (i : ℕ)
    → tally i (moved chosen now error db) ≡ tally i db
unfolding tally
tally-moved chosen now error db i = omega (
  arith,
  count_if-append (dead_has_id i) db.dead (map (to_dead now error) (select chosen db.live)),
  count-map-to_dead i now error (select chosen db.live),
  count_if-select (has_id i) chosen db.live,
)

module _ (ids : List Row → List ℕ) (now : ℤ) (error : String) (db : Jobs) where
  abbrev pub chosen_rows : List Row
  chosen_rows = select (id_in (ids db.live)) db.live

  -- The two statements take the same rows, so the counts agree: the move either refuses a doubled
  -- id and changes nothing, or moves exactly the rows that it chose.
  pub move_to_dead_lem : move_to_dead ids now error db ≡ (
      if conflicts db.dead chosen_rows
      then (err constraint, db)
      else (ok (length chosen_rows), moved (id_in (ids db.live)) now error db))
  unfolding move_to_dead
  move_to_dead_lem = ground (
    arith,
    reject_of_select_nil (id_in (ids db.live)) db.live,
    map_of_nil (to_dead now error) chosen_rows db.dead,
  )

  pub tally-move_to_dead : (i : ℕ) → tally i (move_to_dead ids now error db).1 ≡ tally i db
  tally-move_to_dead i =
      rw move_to_dead_lem (ground (arith, tally-moved (id_in (ids db.live)) now error db i))
