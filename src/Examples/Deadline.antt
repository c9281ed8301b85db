-- ===== src/Examples/Deadline.antt =====
-- The report of the next claim, before and after the lease of a lone job lapses.
use honker.Examples.Queue.{lone_held, lone_held-IsValid}
use honker.Queue.History.{step, run}
use honker.Action.{ok, in_savepoint}
use honker.Queue.Claim.{
  by_deadline, promote, copy_to_dead, decode_all, claim_order, take_claims, exhausted_ids,
  delete_ids, first_ids, set_claimed, claim_batch_inner, claim_batch, Claimed, expire_ids,
  move_to_dead, claim_keys, claimed, claim_ids,
}
use honker.Queue.Submit.{enqueue, check_max_attempts, new_row, effective_run_at, enqueue_at}
use honker.Queue.Rows.{is_promoted, is_expired, is_lapsed, is_due, is_exhausted, Jobs}
use honker.Base.Int.{pos, ◌+ℤ◌, in_i64}
use honker.Base.{◌≡◌, refl, List, [], ◌<◌, inr, true, arith, length}
use honker.Table.{count_if, order_by, insert}
use honker.Queue.Deadline.{
  next_lapse, least, queue_next_claim_at, is_waiting, is_leased, lease_end, earliest,
  next_scheduled,
}
use honker.Queue.Deadline.Lapsed.{next_claim_at_misses_lapsed}
use honker.Queue.Deadline.Wait.{next_claim_at_sound, is_early}

-- At 130 the lease of the lone job, which ends with 140, still holds: the report is 141.
asks_early : queue_next_claim_at "mail" (pos 130) lone_held ≡ ok (pos 141)
unfolding run step enqueue enqueue_at check_max_attempts new_row effective_run_at claim_batch
    in_savepoint claim_batch_inner promote move_to_dead copy_to_dead delete_ids expire_ids
    exhausted_ids first_ids by_deadline is_promoted is_expired is_exhausted take_claims claim_ids
    claim_keys claim_order is_due is_lapsed set_claimed claimed decode_all order_by insert ◌+ℤ◌
    queue_next_claim_at next_scheduled next_lapse least earliest lease_end is_waiting is_leased
asks_early = refl

nothing_before : claim_batch "mail" "w2" (pos 5) (pos 30) (pos 140) lone_held ≡ (ok [], lone_held)
unfolding run step enqueue enqueue_at check_max_attempts new_row effective_run_at claim_batch
    in_savepoint claim_batch_inner promote move_to_dead copy_to_dead delete_ids expire_ids
    exhausted_ids first_ids by_deadline is_promoted is_expired is_exhausted take_claims claim_ids
    claim_keys claim_order is_due is_lapsed set_claimed claimed decode_all order_by insert ◌+ℤ◌
nothing_before = refl

none_lapsed : count_if (is_lapsed "mail" (pos 130)) lone_held.live ≡ 0
unfolding run step enqueue enqueue_at check_max_attempts new_row effective_run_at claim_batch
    in_savepoint claim_batch_inner promote move_to_dead copy_to_dead delete_ids expire_ids
    exhausted_ids first_ids by_deadline is_promoted is_expired is_exhausted take_claims claim_ids
    claim_keys claim_order is_due is_lapsed set_claimed claimed decode_all order_by insert ◌+ℤ◌
none_lapsed = refl

none_early : count_if (is_early (pos 130)) lone_held.live ≡ 0
unfolding run step enqueue enqueue_at check_max_attempts new_row effective_run_at claim_batch
    in_savepoint claim_batch_inner promote move_to_dead copy_to_dead delete_ids expire_ids
    exhausted_ids first_ids by_deadline is_promoted is_expired is_exhausted take_claims claim_ids
    claim_keys claim_order is_due is_lapsed set_claimed claimed decode_all order_by insert ◌+ℤ◌
    is_early
none_early = refl

abbrev nothing : List Claimed
nothing = []

next_claim_at_sound_example : nothing ≡ []
next_claim_at_sound_example =
    next_claim_at_sound "mail" "w2" (pos 130) (pos 140) (pos 5) (pos 30) (pos 141) lone_held nothing
      lone_held lone_held-IsValid (omega arith) (omega arith) asks_early (inr (omega arith))
      none_lapsed none_early nothing_before

fits_at_150 : in_i64 (pos 150 +ℤ pos 30) ≡ true
unfolding run step enqueue enqueue_at check_max_attempts new_row effective_run_at claim_batch
    in_savepoint claim_batch_inner promote move_to_dead copy_to_dead delete_ids expire_ids
    exhausted_ids first_ids by_deadline is_promoted is_expired is_exhausted take_claims claim_ids
    claim_keys claim_order is_due is_lapsed set_claimed claimed decode_all order_by insert ◌+ℤ◌
fits_at_150 = refl

lapsed_at_150 : 0 < count_if (is_lapsed "mail" (pos 150)) lone_held.live
unfolding run step enqueue enqueue_at check_max_attempts new_row effective_run_at claim_batch
    in_savepoint claim_batch_inner promote move_to_dead copy_to_dead delete_ids expire_ids
    exhausted_ids first_ids by_deadline is_promoted is_expired is_exhausted take_claims claim_ids
    claim_keys claim_order is_due is_lapsed set_claimed claimed decode_all order_by insert ◌+ℤ◌
lapsed_at_150 = omega arith

no_due_at_150 : count_if (is_due "mail" (pos 150)) lone_held.live ≡ 0
unfolding run step enqueue enqueue_at check_max_attempts new_row effective_run_at claim_batch
    in_savepoint claim_batch_inner promote move_to_dead copy_to_dead delete_ids expire_ids
    exhausted_ids first_ids by_deadline is_promoted is_expired is_exhausted take_claims claim_ids
    claim_keys claim_order is_due is_lapsed set_claimed claimed decode_all order_by insert ◌+ℤ◌
no_due_at_150 = refl

no_waiting_at_150 : count_if (is_waiting "mail" (pos 150)) lone_held.live ≡ 0
unfolding run step enqueue enqueue_at check_max_attempts new_row effective_run_at claim_batch
    in_savepoint claim_batch_inner promote move_to_dead copy_to_dead delete_ids expire_ids
    exhausted_ids first_ids by_deadline is_promoted is_expired is_exhausted take_claims claim_ids
    claim_keys claim_order is_due is_lapsed set_claimed claimed decode_all order_by insert ◌+ℤ◌
    is_waiting
no_waiting_at_150 = refl

no_leased_at_150 : count_if (is_leased "mail" (pos 150)) lone_held.live ≡ 0
unfolding run step enqueue enqueue_at check_max_attempts new_row effective_run_at claim_batch
    in_savepoint claim_batch_inner promote move_to_dead copy_to_dead delete_ids expire_ids
    exhausted_ids first_ids by_deadline is_promoted is_expired is_exhausted take_claims claim_ids
    claim_keys claim_order is_due is_lapsed set_claimed claimed decode_all order_by insert ◌+ℤ◌
    is_leased
no_leased_at_150 = refl

next_claim_at_misses_lapsed_example :
    (queue_next_claim_at "mail" (pos 150) lone_held ≡ ok (pos 0))
    × ((cs : List Claimed) × (db' : Jobs) × (claim_batch "mail" "w2"
            (pos 1)
            (pos 30)
            (pos 150)
            lone_held
          ≡ (ok cs, db'))
        × (0 < length cs))
next_claim_at_misses_lapsed_example =
    next_claim_at_misses_lapsed "mail" "w2" 0 (pos 30) (pos 150) lone_held lone_held-IsValid
      fits_at_150 lapsed_at_150 no_due_at_150 no_waiting_at_150 no_leased_at_150
