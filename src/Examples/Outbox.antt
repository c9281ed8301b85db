-- ===== src/Examples/Outbox.antt =====
-- An outbox with one job, delivered at the first and not at the second try.
use honker.Queue.History.{run, Call, step, run-IsValid, enqueues}
use honker.Base.{ℕ, ◌+◌, String, ◌≡◌, refl, true, false, Option, none, some, List, [], ◌∷◌, arith}
use honker.Action.{ok, in_savepoint, Result}
use honker.Queue.Finish.{ack, delete_where}
use honker.Queue.Claim.{
  move_to_dead, claim_batch, promote, take_claims, claim_batch_inner, claimed, claim_keys,
  expire_ids, claim_ids, decode_all, set_claimed, exhausted_ids, first_ids,
}
use honker.Queue.Submit.{check_max_attempts, new_row, enqueue_at, enqueue}
use honker.Queue.Valid.{empty-IsValid, empty}
use honker.Queue.Rows.{Jobs, is_promoted, is_exhausted, is_due, is_lapsed, is_expired}
use honker.Base.Int.{i64_max, negsuc, ◌≤ℤ◌, pos, ℤ, ◌+ℤ◌}
use honker.Client.Outbox.{claim_one, run_once, retry_delay, job_ack, deliver, report}
use honker.Client.Outbox.Delivered.{IsSettled, run_once-IsSettled}
use honker.Client.Outbox.Backoff.{retry_delay_lem}
use honker.Table.{insert, order_by}

abbrev posted : List Call
posted = enqueues (pos 10) (pos 10) "_outbox:mail" "hello" none none (pos 0) (pos 3) none ∷ []

abbrev outbox_db : Jobs
outbox_db = run empty posted

abbrev as_given : String → Result String
as_given s = ok s

abbrev sent : String → Option String
sent s = none

abbrev unsent : String → Option String
unsent s = some "no route"

abbrev at_thirty : ℕ → ℤ
at_thirty i = pos 30

sends :
    (run_once as_given sent false false "_outbox:mail" "w"
      (pos 60)
      (pos 5)
      (pos 20)
      []
      at_thirty
      outbox_db).0
    ≡ ok true
unfolding run_once claim_one report deliver job_ack run step enqueue enqueue_at check_max_attempts
    new_row claim_batch claim_batch_inner in_savepoint promote move_to_dead take_claims ack
    delete_where expire_ids first_ids order_by is_expired is_promoted exhausted_ids is_exhausted
    decode_all claim_ids claim_keys is_due insert is_lapsed claimed ◌+ℤ◌ set_claimed
sends = refl

run_once-IsSettled_example :
    IsSettled as_given sent
      (claim_batch "_outbox:mail" "w" (pos 1) (pos 60) (pos 20) outbox_db)
      []
      (run_once as_given sent false false "_outbox:mail" "w"
        (pos 60)
        (pos 5)
        (pos 20)
        []
        at_thirty
        outbox_db).1
run_once-IsSettled_example =
    run_once-IsSettled as_given sent false false "_outbox:mail" "w" (pos 60) (pos 5) (pos 20) []
      at_thirty outbox_db (run-IsValid posted empty empty-IsValid) sends

retry_delay_example :
    (pos 5 ≤ℤ retry_delay (pos 5) 3)
    × (retry_delay (pos 5) 3 ≤ℤ pos i64_max)
    × (retry_delay (pos 5) 3 ≤ℤ retry_delay (pos 5) (3 + 1))
    × (retry_delay (pos 5) 1 ≡ pos 5)
    × (retry_delay (negsuc 0) 3 ≡ pos 0)
    × (retry_delay (pos 0) 3 ≡ pos 0)
retry_delay_example = retry_delay_lem 5 3 0 (omega arith) (omega arith) (omega arith) (omega arith)
