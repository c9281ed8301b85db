-- ===== src/Queue/Valid/Steps.antt =====
-- `claim_batch` and `sweep_expired`, and the invariant (honker-core/src/honker_ops.rs).
use honker.Table.{All-reject}
use honker.Queue.Moves.{tally-move_to_dead, move_to_dead_lem}
use honker.Queue.Claim.{
  set_claimed, id_in, move_to_dead, claim_ids, promote, first_ids, take_claims, housekeeping_limit,
  sweep_expired, claim_batch_inner, claim_batch,
}
use honker.Queue.Pick.{is_claimable, claim_takes_claimable}
use honker.Queue.Valid.{
  Preserves, All-update_selected, IsValidRow, live-IsDistinct, shrink-IsValid, first_ids_sound,
  Preserves-Preorder,
}
use honker.Queue.Rows.{pending, is_promoted, Row}
use honker.Base.Int.{ℤ}
use honker.Action.Keeps.{Keeps, Keeps-bind, Keeps-in_savepoint}
use honker.Base.{ℕ, String, ◌≡◌, refl, true, List, arith}
use honker.Queue.Conserve.{promote-SameTally, take_claims-SameTally}

pub promote-Preserves : (queue : String) (now n : ℤ) → Keeps Preserves (promote queue now n)
unfolding promote
promote-Preserves queue now n = record {
  at = λ db v.
      let ids = first_ids (is_promoted queue now) (λ r. r.run_at) n db.live in
      shrink-IsValid db _ refl (λ i. omega (arith, (promote-SameTally i queue now n).at db))
        (All-update_selected IsValidRow (λ r. is_promoted queue now r ≡ true) (id_in ids)
          (λ r. record r { state = pending }) promoted_row db.live
          (first_ids_sound (is_promoted queue now) (λ r. r.run_at) n db.live (live-IsDistinct db v))
          v.rows)
        v;
}
  where
    promoted_row :
        (r : Row)
        → is_promoted queue now r ≡ true
        → IsValidRow r
        → IsValidRow (record r { state = pending })
    promoted_row r p v = unfold is_promoted in ground arith

pub take_claims-Preserves :
    (queue worker : String) (n timeout now : ℤ)
    → Keeps Preserves (take_claims queue worker n timeout now)
unfolding take_claims
take_claims-Preserves queue worker n timeout now = record {
  at = λ db v.
      shrink-IsValid db _ refl
        (λ i. omega (arith, (take_claims-SameTally i queue worker n timeout now).at db))
        (All-update_selected IsValidRow (λ r. is_claimable queue now r ≡ true)
          (id_in (claim_ids queue n now db.live)) (set_claimed worker timeout now) claimed_row
          db.live (claim_takes_claimable queue n now db.live (live-IsDistinct db v)) v.rows)
        v;
}
  where
    claimed_row :
        (r : Row)
        → is_claimable queue now r ≡ true
        → IsValidRow r
        → IsValidRow (set_claimed worker timeout now r)
    claimed_row r p v = unfold is_claimable set_claimed in ground arith

pub move_to_dead-Preserves :
    (ids : List Row → List ℕ) (now : ℤ) (error : String)
    → Keeps Preserves (move_to_dead ids now error)
move_to_dead-Preserves ids now error = record {
  at = λ db v.
      shrink-IsValid db _ (rw move_to_dead_lem (ground arith))
        (λ i. omega (arith, tally-move_to_dead ids now error db i))
        (rw move_to_dead_lem
          (ground (arith, All-reject IsValidRow (id_in (ids db.live)) db.live v.rows)))
        v;
}

-- A claim preserves the invariant, whether it succeeds or fails.
pub claim_batch-Preserves :
    (queue worker : String) (n timeout now : ℤ)
    → Keeps Preserves (claim_batch queue worker n timeout now)
unfolding claim_batch claim_batch_inner
claim_batch-Preserves queue worker n timeout now =
    let o = Preserves-Preorder in
    Keeps-in_savepoint o _ (
      Keeps-bind o _ _ (promote-Preserves queue now housekeeping_limit) λ _.
        Keeps-bind o _ _ (move_to_dead-Preserves _ now "expired") λ _.
          Keeps-bind o _ _ (move_to_dead-Preserves _ now "max attempts exceeded")
            λ _. take_claims-Preserves queue worker n timeout now)

pub sweep_expired-Preserves : (queue : String) (now : ℤ) → Keeps Preserves (sweep_expired queue now)
unfolding sweep_expired
sweep_expired-Preserves queue now =
    Keeps-in_savepoint Preserves-Preorder _ (move_to_dead-Preserves _ now "expired")
