-- ===== src/Queue/Conserve.antt =====
-- The ids in `_honker_live` and `_honker_dead` over a claim and a sweep (honker-core/src/honker_ops.rs).
use honker.Table.{count_if-update}
use honker.Queue.Moves.{tally-move_to_dead}
use honker.Queue.Claim.{
  id_in, claim_batch, move_to_dead, claim_batch_inner, housekeeping_limit, first_ids, set_claimed,
  claim_ids, take_claims, promote, sweep_expired,
}
use honker.Queue.Rows.{Jobs, Row, has_id, pending, is_promoted, tally}
use honker.Base.Int.{ℤ}
use honker.Action.Keeps.{Preorder, Keeps-bind, Keeps, Keeps-in_savepoint}
use honker.Base.{ℕ, String, ◌≡◌, refl, ◌∙◌, List, arith}

-- The id `i` stands as often in the tables as before.
abbrev pub SameTally : ℕ → Jobs → Jobs → Type 0
SameTally i db db' = tally i db' ≡ tally i db

pub SameTally-Preorder : (i : ℕ) → Preorder (SameTally i)
SameTally-Preorder i = record { same = λ s. refl; trans = λ s t u p q. q ∙ p }

pub promote-SameTally :
    (i : ℕ) (queue : String) (now n : ℤ) → Keeps (SameTally i) (promote queue now n)
unfolding promote tally
promote-SameTally i queue now n = record {
  at = λ db. omega (
    arith,
    count_if-update (has_id i) (id_in (first_ids (is_promoted queue now) (λ r. r.run_at) n db.live))
        (λ r. record r { state = pending }) (λ r. refl) db.live,
  );
}

pub move_to_dead-SameTally :
    (i : ℕ) (ids : List Row → List ℕ) (now : ℤ) (error : String)
    → Keeps (SameTally i) (move_to_dead ids now error)
move_to_dead-SameTally i ids now error = record { at = λ db. tally-move_to_dead ids now error db i }

pub take_claims-SameTally :
    (i : ℕ) (queue worker : String) (n timeout now : ℤ)
    → Keeps (SameTally i) (take_claims queue worker n timeout now)
unfolding take_claims tally set_claimed
take_claims-SameTally i queue worker n timeout now = record {
  at = λ db. omega (
    arith,
    count_if-update (has_id i) (id_in (claim_ids queue n now db.live))
        (set_claimed worker timeout now) (λ r. refl) db.live,
  );
}

-- A claim, successful or not, neither loses nor doubles a job: every id stands in the live and the
-- dead table together as often as before.
pub claim_batch-SameTally :
    (i : ℕ) (queue worker : String) (n timeout now : ℤ)
    → Keeps (SameTally i) (claim_batch queue worker n timeout now)
unfolding claim_batch claim_batch_inner
claim_batch-SameTally i queue worker n timeout now =
    let o = SameTally-Preorder i in
    Keeps-in_savepoint o _ (
      Keeps-bind o _ _ (promote-SameTally i queue now housekeeping_limit) λ _.
        Keeps-bind o _ _ (move_to_dead-SameTally i _ now "expired") λ _.
          Keeps-bind o _ _ (move_to_dead-SameTally i _ now "max attempts exceeded")
            λ _. take_claims-SameTally i queue worker n timeout now)

pub sweep_expired-SameTally :
    (i : ℕ) (queue : String) (now : ℤ) → Keeps (SameTally i) (sweep_expired queue now)
unfolding sweep_expired
sweep_expired-SameTally i queue now =
    Keeps-in_savepoint (SameTally-Preorder i) _ (move_to_dead-SameTally i _ now "expired")

-- Every id stands in the live and the dead table together as often after a claim, successful or not,
-- as before it, and likewise after a sweep of expired jobs.
pub claims_and_sweeps_conserve :
    (i : ℕ) (queue worker : String) (n timeout now : ℤ) (db : Jobs)
    → (tally i (claim_batch queue worker n timeout now db).1 ≡ tally i db)
      × (tally i (sweep_expired queue now db).1 ≡ tally i db)
claims_and_sweeps_conserve i queue worker n timeout now db = (
  (claim_batch-SameTally i queue worker n timeout now).at db,
  (sweep_expired-SameTally i queue now).at db,
)
