-- ===== src/Queue/Bury.antt =====
-- A row that DELETE ... RETURNING took out and that is written to `_honker_dead`: the common part of
-- `retry_with` and `fail_inner` (honker-core/src/honker_ops.rs).
use honker.Action.{Action, err, Result, ◌>>=◌, ok, resume}
use honker.Table.{count_if-append, count_if-select, count_if, reject, select}
use honker.Queue.Finish.{delete_returning, from_row, buried, DeadRow, insert_dead, bury, first_row}
use honker.Queue.Rows.{Row, dead_has_id, tally, has_id, Jobs}
use honker.Base.Int.{ℤ}
use honker.Base.{
  ℕ, ◌+◌, ◌≤◌, String, ◌≡◌, refl, ap, Bool, some, List, [], ◌∷◌, arith, ◌==◌, if◌then◌else◌, Option,
  none,
}

abbrev pub dead_letter : (Row → Bool) → String → ℤ → Action Jobs ℕ
dead_letter p error died = delete_returning p >>= bury error died

pub from_row_id : (r : Row) (d : DeadRow) → from_row r ≡ ok d → d.id ≡ r.id
unfolding from_row
from_row_id r d h = ground arith

tally-insert_dead :
    (i : ℕ) (error : String) (died : ℤ) (d : DeadRow) (db : Jobs)
    → tally i (bury error died (some d) db).1 ≤ tally i db + (if d.id == i then 1 else 0)
unfolding tally insert_dead
tally-insert_dead i error died d db =
    ground (arith, count_if-append (dead_has_id i) db.dead (buried error died d ∷ []))

module _ (i : ℕ) (error : String) (died : ℤ) (p : Row → Bool) (db : Jobs) where
  abbrev rest : Jobs
  rest = record db { live = reject p db.live }

  tally-first :
      (r : Row) (rs : List Row)
      → select p db.live ≡ r ∷ rs
      → tally i rest + (if r.id == i then 1 else 0) ≤ tally i db
  unfolding tally
  tally-first r rs e =
      ground (arith, count_if-select (has_id i) p db.live, ap (count_if (has_id i)) e)

  tally-read :
      (r : Row) (rs : List Row) (x : Result DeadRow)
      → select p db.live ≡ r ∷ rs
      → from_row r ≡ x
      → tally i (dead_letter p error died db).1 ≤ tally i db
  unfolding delete_returning
  tally-read r rs (err x) e f = rw (e, f) (omega (arith, tally-first r rs e))
  tally-read r rs (ok d) e f =
      rw (e, f)
        (ground
          (arith, tally-first r rs e, tally-insert_dead i error died d rest, from_row_id r d f))

  -- A dead letter puts no id into the tables once more.
  tally-selected :
      (rows : List Row)
      → select p db.live ≡ rows
      → tally i (dead_letter p error died db).1 ≤ tally i db
  unfolding delete_returning tally
  tally-selected [] e = rw e (omega (arith, count_if-select (has_id i) p db.live))
  tally-selected (r ∷ rs) e = tally-read r rs (from_row r) e refl

  pub tally-dead_letter-le : tally i (dead_letter p error died db).1 ≤ tally i db
  tally-dead_letter-le = tally-selected (select p db.live) refl

bury_keeps :
    (error : String) (died : ℤ) (x : Result (Option DeadRow)) (db : Jobs)
    → ((resume x (bury error died) db).1.live ≡ db.live)
      × ((resume x (bury error died) db).1.next_id ≡ db.next_id)
unfolding insert_dead
bury_keeps error died (err e) db = (refl, refl)
bury_keeps error died (ok none) db = (refl, refl)
bury_keeps error died (ok (some d)) db = ground arith

-- A dead letter takes the selected rows out of `_honker_live`, whatever becomes of them then.
pub live-dead_letter :
    (p : Row → Bool) (error : String) (died : ℤ) (db : Jobs)
    → ((dead_letter p error died db).1.live ≡ reject p db.live)
      × ((dead_letter p error died db).1.next_id ≡ db.next_id)
unfolding delete_returning
live-dead_letter p error died db =
    bury_keeps error died (first_row (select p db.live)) (record db { live = reject p db.live })
