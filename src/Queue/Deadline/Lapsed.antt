-- ===== src/Queue/Deadline/Lapsed.antt =====
-- `queue_next_claim_at` and a lease that has lapsed by the time of the report (honker-core/src/honker_ops.rs).
use honker.Action.{ok}
use honker.Table.{count_if}
use honker.Queue.Claim.{Claimed, claim_batch}
use honker.Queue.Deadline.{
  queue_next_claim_at, is_waiting, earliest, next_lapse, is_leased, next_scheduled, least,
}
use honker.Queue.Pick.{is_claimable}
use honker.Queue.Valid.{IsValid}
use honker.Queue.Rows.{is_lapsed, Row, is_due, Jobs}
use honker.Queue.Batch.Liveness.{claim_batch_progress}
use honker.Base.Int.{pos, ◌+ℤ◌, ℤ, in_i64}
use honker.Table.Counts.{count_if_imp, select_none}
use honker.Base.{ℕ, suc, ◌<◌, String, ◌≡◌, true, List, arith, length}

-- Where jobs under lapsed leases are all that the queue has to hand out, the report is 0, nothing to
-- wait for, although a claim for one job or more made at that moment hands out at least one.
-- The database is valid, and the lease of the claim ends at an `i64`.
pub next_claim_at_misses_lapsed :
    (queue worker : String) (n : ℕ) (timeout now : ℤ) (db : Jobs)
    → IsValid db
    → in_i64 (now +ℤ timeout) ≡ true
    → 0 < count_if (is_lapsed queue now) db.live
    → count_if (is_due queue now) db.live ≡ 0
    → count_if (is_waiting queue now) db.live ≡ 0
    → count_if (is_leased queue now) db.live ≡ 0
    → (queue_next_claim_at queue now db ≡ ok (pos 0))
      × ((cs : List Claimed) × (db' : Jobs) × (claim_batch queue worker (pos (suc n)) timeout now db
            ≡ (ok cs, db'))
          × (0 < length cs))
unfolding queue_next_claim_at next_scheduled next_lapse least earliest
next_claim_at_misses_lapsed queue worker n timeout now db v h lapsed no_due no_waiting no_leased = (
  rw (
    select_none (is_waiting queue now) db.live no_waiting,
    select_none (is_leased queue now) db.live no_leased,
    no_due,
  ),
  claim_batch_progress queue worker n timeout now db v h (
      omega (
        arith,
        lapsed,
        count_if_imp (is_lapsed queue now) (is_claimable queue now) lapsed_claimable db.live,
      )),
)
  where
    lapsed_claimable : (r : Row) → is_lapsed queue now r ≡ true → is_claimable queue now r ≡ true
    lapsed_claimable r e = unfold is_lapsed is_claimable in ground arith
