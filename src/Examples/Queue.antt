-- ===== src/Examples/Queue.antt =====
-- A queue of two jobs that two workers share.
use honker.Queue.History.{enqueues, step, run, Call, run-IsValid, claims}
use honker.Action.{ok, in_savepoint}
use honker.Queue.Claim.{
  by_deadline, promote, copy_to_dead, decode_all, claim_order, take_claims, exhausted_ids,
  delete_ids, first_ids, set_claimed, claim_batch_inner, claim_batch, Claimed, expire_ids,
  move_to_dead, claim_keys, claimed, claim_ids, sweep_expired, key,
}
use honker.Queue.Submit.{enqueue, check_max_attempts, new_row, effective_run_at, enqueue_at}
use honker.Queue.Valid.{empty, IsValid, empty-IsValid}
use honker.Queue.Rows.{
  processing, Row, is_promoted, is_expired, is_lapsed, pending, is_due, is_exhausted, Jobs, tally,
}
use honker.Base.Int.{ℤ, pos, ◌+ℤ◌, in_i64}
use honker.Base.{
  ℕ, String, ◌≡◌, refl, none, some, List, [], ◌∷◌, ◌<◌, ◌≢◌, true, map, arith, length, All, Memᴰ,
}
use honker.Table.{count_if, order_by, limit, insert, select}
use honker.Queue.Conserve.{claims_and_sweeps_conserve}
use honker.Queue.Finish.{retry_with, fail}
use honker.Queue.Retry.{retries_and_fails_conserve}
use honker.Queue.Pick.{claim_keys-eq-first, is_claimable}
use honker.Queue.Fencing.Stale.{Misses}
use honker.Queue.Fencing.Token.{claim_fences}
use honker.Queue.Batch.Grant.{claim_batch_grants, IsGranted}
use honker.Queue.Batch.Liveness.{claim_batch_progress}
use honker.Queue.Batch.Exclusive.{claims_exclusive}

abbrev pub submits : ℤ → String → ℤ → Call
submits now payload priority = enqueues now now "mail" payload none none priority (pos 3) none

abbrev two_calls : List Call
two_calls = submits (pos 100) "a" (pos 0) ∷ submits (pos 100) "b" (pos 5) ∷ []

abbrev two_jobs : Jobs
two_jobs = run empty two_calls

abbrev waiting : ℕ → String → ℤ → Row
waiting i payload priority = record {
  id = i;
  queue = "mail";
  payload = payload;
  state = pending;
  priority = priority;
  run_at = pos 100;
  worker_id = none;
  claim_expires_at = none;
  attempts = 0;
  max_attempts = pos 3;
  created_at = pos 100;
  expires_at = none;
  claimed_at = none;
}

abbrev held : Row → String → ℤ → ℤ → ℕ → Row
held r worker start lease attempts = record r {
  state = processing;
  worker_id = some worker;
  claim_expires_at = some lease;
  attempts = attempts;
  claimed_at = some start;
}

abbrev handed : ℕ → String → String → ℤ → ℤ → ℕ → Claimed
handed i payload worker start lease attempts = record {
  id = i;
  queue = "mail";
  payload = payload;
  worker_id = worker;
  attempts = attempts;
  claim_expires_at = lease;
  claimed_at = start;
}

abbrev first_claim : List Claimed
first_claim = handed 2 "b" "w1" (pos 110) (pos 140) 1 ∷ []

abbrev one_held : Jobs
one_held = record {
  live = waiting 1 "a" (pos 0) ∷ held (waiting 2 "b" (pos 5)) "w1" (pos 110) (pos 140) 1 ∷ [];
  dead = [];
  next_id = 3;
}

abbrev second_claim : List Claimed
second_claim = handed 1 "a" "w2" (pos 120) (pos 150) 1 ∷ []

abbrev both_held : Jobs
both_held = record {
  live =
      held (waiting 1 "a" (pos 0)) "w2" (pos 120) (pos 150) 1
      ∷ held (waiting 2 "b" (pos 5)) "w1" (pos 110) (pos 140) 1
      ∷ [];
  dead = [];
  next_id = 3;
}

two_jobs_lem :
    two_jobs
    ≡ record { live = waiting 1 "a" (pos 0) ∷ waiting 2 "b" (pos 5) ∷ []; dead = []; next_id = 3 }
unfolding run step enqueue enqueue_at check_max_attempts new_row effective_run_at
two_jobs_lem = refl

two_jobs-IsValid : IsValid two_jobs
two_jobs-IsValid = run-IsValid two_calls empty empty-IsValid

claims_highest :
    claim_batch "mail" "w1" (pos 1) (pos 30) (pos 110) two_jobs ≡ (ok first_claim, one_held)
unfolding run step enqueue enqueue_at check_max_attempts new_row effective_run_at claim_batch
    in_savepoint claim_batch_inner promote move_to_dead copy_to_dead delete_ids expire_ids
    exhausted_ids first_ids by_deadline is_promoted is_expired is_exhausted take_claims claim_ids
    claim_keys claim_order is_due is_lapsed set_claimed claimed decode_all order_by insert ◌+ℤ◌
claims_highest = refl

claims_other :
    claim_batch "mail" "w2" (pos 2) (pos 30) (pos 120) one_held ≡ (ok second_claim, both_held)
unfolding run step enqueue enqueue_at check_max_attempts new_row effective_run_at claim_batch
    in_savepoint claim_batch_inner promote move_to_dead copy_to_dead delete_ids expire_ids
    exhausted_ids first_ids by_deadline is_promoted is_expired is_exhausted take_claims claim_ids
    claim_keys claim_order is_due is_lapsed set_claimed claimed decode_all order_by insert ◌+ℤ◌
claims_other = refl

abbrev pub lone_calls : List Call
lone_calls = submits (pos 100) "a" (pos 0) ∷ claims "mail" "w1" (pos 1) (pos 30) (pos 110) ∷ []

abbrev pub lone_held : Jobs
lone_held = run empty lone_calls

pub lone_held-IsValid : IsValid lone_held
lone_held-IsValid = run-IsValid lone_calls empty empty-IsValid

run-IsValid_example : IsValid (run empty two_calls)
run-IsValid_example = run-IsValid two_calls empty empty-IsValid

claims_exclusive_example : All (λ c. All (λ d. c.id ≢ d.id) second_claim) first_claim
unfolding ◌+ℤ◌
claims_exclusive_example =
    claims_exclusive "mail" "mail" "w1" "w2" (pos 1) (pos 2) (pos 30) (pos 30) (pos 110) (pos 120)
      two_jobs one_held both_held first_claim second_claim two_jobs-IsValid (omega arith)
      claims_highest claims_other

claim_batch_grants_example : All (IsGranted "mail" "w1" (pos 30) (pos 110) two_jobs) first_claim
claim_batch_grants_example =
    claim_batch_grants "mail" "w1" (pos 1) (pos 30) (pos 110) two_jobs two_jobs-IsValid first_claim
      one_held claims_highest

claim_keys_example :
    claim_keys "mail" (pos 1) (pos 110) one_held.live
    ≡ limit
        (pos 1)
        (order_by claim_order (map key (select (is_claimable "mail" (pos 110)) one_held.live)))
claim_keys_example = claim_keys-eq-first "mail" (pos 1) (pos 110) one_held.live

claim_fences_example : Misses 2 0 (run one_held two_calls)
claim_fences_example =
    claim_fences "mail" "w1" (pos 1) (pos 30) (pos 110) two_jobs first_claim one_held
      two_jobs-IsValid claims_highest (handed 2 "b" "w1" (pos 110) (pos 140) 1) 0 two_calls
      (Memᴰ.head refl) (omega arith)

lease_fits : in_i64 (pos 110 +ℤ pos 30) ≡ true
unfolding run step enqueue enqueue_at check_max_attempts new_row effective_run_at claim_batch
    in_savepoint claim_batch_inner promote move_to_dead copy_to_dead delete_ids expire_ids
    exhausted_ids first_ids by_deadline is_promoted is_expired is_exhausted take_claims claim_ids
    claim_keys claim_order is_due is_lapsed set_claimed claimed decode_all order_by insert ◌+ℤ◌
    is_claimable
lease_fits = refl

a_claimable : 0 < count_if (is_claimable "mail" (pos 110)) two_jobs.live
unfolding run step enqueue enqueue_at check_max_attempts new_row effective_run_at claim_batch
    in_savepoint claim_batch_inner promote move_to_dead copy_to_dead delete_ids expire_ids
    exhausted_ids first_ids by_deadline is_promoted is_expired is_exhausted take_claims claim_ids
    claim_keys claim_order is_due is_lapsed set_claimed claimed decode_all order_by insert ◌+ℤ◌
    is_claimable
a_claimable = omega arith

claim_batch_progress_example :
    (cs : List Claimed) × (db' : Jobs) × (claim_batch "mail" "w1"
        (pos 1)
        (pos 30)
        (pos 110)
        two_jobs
      ≡ (ok cs, db'))
    × (0 < length cs)
claim_batch_progress_example =
    claim_batch_progress "mail" "w1" 0 (pos 30) (pos 110) two_jobs two_jobs-IsValid lease_fits
      a_claimable

conserve_example :
    (tally 2 (claim_batch "mail" "w1" (pos 1) (pos 30) (pos 110) two_jobs).1 ≡ tally 2 two_jobs)
    × (tally 2 (sweep_expired "mail" (pos 110) two_jobs).1 ≡ tally 2 two_jobs)
conserve_example = claims_and_sweeps_conserve 2 "mail" "w1" (pos 1) (pos 30) (pos 110) two_jobs

retries_and_fails_conserve_example :
    (tally 1
        (retry_with 1 "w1"
          (pos 10)
          "boom"
          (some 1)
          (pos 115)
          (pos 115)
          (pos 115)
          (pos 115)
          lone_held).1
      ≡ tally 1 lone_held)
    × (tally 1 (fail 1 "w1" "boom" (some 1) (pos 115) (pos 115) lone_held).1 ≡ tally 1 lone_held)
retries_and_fails_conserve_example =
    retries_and_fails_conserve 1 lone_held 1 "w1" (pos 10) "boom" (some 1) (pos 115) (pos 115)
      (pos 115) (pos 115) lone_held-IsValid
