-- ===== src/Queue/Batch/Progress.antt =====
-- Runs of `claim_batch` on a valid database (honker-core/src/honker_ops.rs).
use honker.Action.{in_savepoint, ok, Result}
use honker.Table.{count_if, select}
use honker.Queue.Moves.{moved, move_to_dead_lem}
use honker.Queue.Claim.{
  conflicts, claimed, decode_all, promote, claim_batch, id_in, take_claims, claim_batch_inner,
  move_to_dead, Claimed, expire_ids, housekeeping_limit, exhausted_ids,
}
use honker.Queue.Batch.{taken, prepared}
use honker.Queue.Valid.{IsValid}
use honker.Queue.Rows.{Jobs, Row, DeadJob, dead_has_id, has_id, tally}
use honker.Base.Int.{◌+ℤ◌, ℤ, in_i64}
use honker.Table.Counts.{contains→count}
use honker.Base.{
  ℕ, ◌+◌, ◌≤◌, String, ◌≡◌, refl, ◌∙◌, Bool, true, false, List, [], ◌∷◌, map, arith, length, ap,
}
use honker.Queue.Valid.Steps.{move_to_dead-Preserves, promote-Preserves}
use honker.Action.Outcome.{bind_after}

pub no_conflict :
    (dead : List DeadJob) (p : Row → Bool) (xs : List Row)
    → ((i : ℕ) → count_if (has_id i) xs + count_if (dead_has_id i) dead ≤ 1)
    → conflicts dead (select p xs) ≡ false
no_conflict dead p [] h = refl
no_conflict dead p (x ∷ xs) h = ground (
  arith,
  h x.id,
  contains→count (λ (d : DeadJob). d.id) x.id dead,
  no_conflict dead p xs (λ i. omega (arith, h i)),
)

-- In a valid database a move always succeeds: no id is doubled, and both statements agree.
pub move_to_dead_succeeds :
    (ids : List Row → List ℕ) (now : ℤ) (error : String) (db : Jobs)
    → IsValid db
    → move_to_dead ids now error db ≡ (
      ok (length (select (id_in (ids db.live)) db.live)),
      moved (id_in (ids db.live)) now error db,
    )
unfolding tally
move_to_dead_succeeds ids now error db v =
    move_to_dead_lem ids now error db
    ∙ rw (no_conflict db.dead (id_in (ids db.live)) db.live v.distinct) refl

decode_all-map :
    (worker : String) (timeout now : ℤ) (rows : List Row)
    → in_i64 (now +ℤ timeout) ≡ true
    → decode_all (map (claimed worker timeout now) rows)
      ≡ ok (map (claimed worker timeout now) rows)
unfolding decode_all claimed
decode_all-map worker timeout now [] h = refl
decode_all-map worker timeout now (r ∷ rs) h = rw (decode_all-map worker timeout now rs h, h)

module _ (queue worker : String) (n timeout now : ℤ) (db : Jobs) (v : IsValid db)
    (h : in_i64 (now +ℤ timeout) ≡ true) where
  abbrev pub result : List Claimed
  result = map (claimed worker timeout now) (taken queue n now db)

  pub claimed_table : Jobs
  claimed_table = (take_claims queue worker n timeout now (prepared queue now db)).1

  take_claims_succeeds :
      take_claims queue worker n timeout now (prepared queue now db) ≡ (ok result, claimed_table)
  unfolding take_claims taken claimed_table
  take_claims_succeeds = rw (decode_all-map worker timeout now (taken queue n now db) h)

  inner_succeeds : claim_batch_inner queue worker n timeout now db ≡ (ok result, claimed_table)
  unfolding claim_batch_inner prepared promote
  inner_succeeds =
      let first = (promote queue now housekeeping_limit db).1 in
      let expire = move_to_dead (expire_ids queue now housekeeping_limit) now "expired" in
      let exhaust =
        move_to_dead (exhausted_ids queue now housekeeping_limit) now "max attempts exceeded" in
      let v₁ = (promote-Preserves queue now housekeeping_limit).at db v in
      let v₂ = (move_to_dead-Preserves _ now "expired").at first v₁ in
      bind_after expire _ first _
        (ap (λ (x : Result ℕ × Jobs). x.0) (move_to_dead_succeeds _ now "expired" first v₁))
      ∙ bind_after exhaust _ (expire first).1 _ (
          ap (λ (x : Result ℕ × Jobs). x.0)
            (move_to_dead_succeeds _ now "max attempts exceeded" (expire first).1 v₂))
      ∙ take_claims_succeeds

  -- A claim on a valid database succeeds if its lease ends at an `i64`.
  pub claim_batch_succeeds : claim_batch queue worker n timeout now db ≡ (ok result, claimed_table)
  unfolding claim_batch in_savepoint
  claim_batch_succeeds = rw inner_succeeds refl
