-- ===== src/Examples/Retry.antt =====
-- Retries of a job with attempts left, and of one without.
use honker.Queue.Retry.Requeue.{retry_buries, Decodes, IsDeadLetter}
use honker.Queue.History.{enqueues, claims, Call, run-IsValid, step, run}
use honker.Queue.Valid.{empty, empty-IsValid}
use honker.Queue.Finish.{DeadRow, fenced, from_row, retry_with}
use honker.Queue.Rows.{
  Jobs, has_attempts, is_promoted, is_exhausted, is_lapsed, is_due, is_expired, has_id,
}
use honker.Base.Int.{ℤ, ◌+ℤ◌, pos}
use honker.Action.{in_savepoint}
use honker.Table.{insert, count_if, order_by}
use honker.Queue.Claim.{
  claim_batch, first_ids, claim_ids, expire_ids, claim_keys, copy_to_dead, decode_all, set_claimed,
  claim_batch_inner, delete_ids, claim_order, move_to_dead, promote, take_claims, by_deadline,
  claimed, exhausted_ids,
}
use honker.Queue.Submit.{effective_run_at, check_max_attempts, new_row, enqueue_at, enqueue}
use honker.Base.{◌<◌, ◌≡◌, refl, not, ◌&&◌, none, some, List, [], ◌∷◌, arith, All}

abbrev calls_with : ℤ → List Call
calls_with budget =
    enqueues (pos 100) (pos 100) "mail" "a" none none (pos 0) budget none
    ∷ claims "mail" "w1" (pos 1) (pos 30) (pos 110)
    ∷ []

abbrev held_with : ℤ → Jobs
held_with budget = run empty (calls_with budget)

has_more : 0 < count_if (λ r. fenced 1 "w1" 1 r && has_attempts r) (held_with (pos 3)).live
unfolding run step enqueue enqueue_at check_max_attempts new_row effective_run_at claim_batch
    in_savepoint claim_batch_inner promote move_to_dead copy_to_dead delete_ids expire_ids
    exhausted_ids first_ids by_deadline is_promoted is_expired is_exhausted take_claims claim_ids
    claim_keys claim_order is_due is_lapsed set_claimed claimed decode_all order_by insert ◌+ℤ◌
    fenced
has_more = omega arith

has_none_left :
    0 < count_if (λ r. fenced 1 "w1" 1 r && not (has_attempts r)) (held_with (pos 1)).live
unfolding run step enqueue enqueue_at check_max_attempts new_row effective_run_at claim_batch
    in_savepoint claim_batch_inner promote move_to_dead copy_to_dead delete_ids expire_ids
    exhausted_ids first_ids by_deadline is_promoted is_expired is_exhausted take_claims claim_ids
    claim_keys claim_order is_due is_lapsed set_claimed claimed decode_all order_by insert ◌+ℤ◌
    fenced
has_none_left = omega arith

abbrev row_decoded : DeadRow
row_decoded = record {
  id = 1;
  queue = "mail";
  payload = "a";
  priority = pos 0;
  run_at = pos 100;
  max_attempts = pos 1;
  attempts = 1;
  created_at = pos 100;
}

rows_decode : All Decodes (held_with (pos 1)).live
unfolding run step enqueue enqueue_at check_max_attempts new_row effective_run_at claim_batch
    in_savepoint claim_batch_inner promote move_to_dead copy_to_dead delete_ids expire_ids
    exhausted_ids first_ids by_deadline is_promoted is_expired is_exhausted take_claims claim_ids
    claim_keys claim_order is_due is_lapsed set_claimed claimed decode_all order_by insert ◌+ℤ◌
    from_row
rows_decode = ((row_decoded, refl), tt)

retry_buries_example :
    IsDeadLetter 1 "boom" (pos 116) (
      retry_with 1 "w1"
        (pos 10)
        "boom"
        (some 1)
        (pos 115)
        (pos 115)
        (pos 115)
        (pos 116)
        (held_with (pos 1)))
    × (count_if
          (has_id 1)
          (retry_with 1 "w1"
            (pos 10)
            "boom"
            (some 1)
            (pos 115)
            (pos 115)
            (pos 115)
            (pos 116)
            (held_with (pos 1))).1.live
        ≡ 0)
retry_buries_example =
    retry_buries 1 "w1" (pos 10) "boom" 1 (pos 115) (pos 115) (pos 115) (pos 116)
      (held_with (pos 1)) (run-IsValid (calls_with (pos 1)) empty empty-IsValid) rows_decode
      has_none_left
