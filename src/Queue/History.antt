-- ===== src/Queue/History.antt =====
-- Histories of calls by any number of workers, in any order and at any times.
-- The times are the clock readings of the call's statements.
use honker.Queue.Finish.{ack, ack_batch, fail, retry_with, AckItem, ack_fenced}
use honker.Queue.Claim.{claim_batch, sweep_expired}
use honker.Queue.Manage.{heartbeat_fenced, cancel_in_queue, cancel, heartbeat}
use honker.Queue.Submit.{enqueue}
use honker.Queue.Valid.{IsValid}
use honker.Queue.Rows.{Jobs}
use honker.Queue.Valid.Calls.{
  fail-Preserves, heartbeat_fenced-Preserves, retry_with-Preserves, delete_where-Preserves,
  enqueue-Preserves, heartbeat-Preserves,
}
use honker.Queue.Valid.Steps.{claim_batch-Preserves, sweep_expired-Preserves}
use honker.Base.Int.{ℤ}
use honker.Base.{ℕ, String, Option, List, [], ◌∷◌}

pub data Call : Type 0 where
  enqueues :
      (now created : ℤ) (queue payload : String) (run_at delay : Option ℤ)
      (priority max_attempts : ℤ) (expires : Option ℤ)
      → Call
  claims : (queue worker : String) (n timeout now : ℤ) → Call
  acks : (job : ℕ) (worker : String) (now : ℤ) → Call
  acks_fenced : (job : ℕ) (worker : String) (attempt : ℕ) → Call
  acks_batch : (items : List AckItem) (worker : String) (now : ℤ) → Call
  retries :
      (job : ℕ) (worker : String) (delay : ℤ) (error : String) (attempt : Option ℕ)
      (now later last died : ℤ)
      → Call
  fails : (job : ℕ) (worker error : String) (attempt : Option ℕ) (now died : ℤ) → Call
  cancels : (job : ℕ) → Call
  cancels_in_queue : (queue : String) (job : ℕ) → Call
  heartbeats : (job : ℕ) (worker : String) (extend_s now : ℤ) → Call
  heartbeats_fenced : (job : ℕ) (worker : String) (extend_s : ℤ) (attempt : ℕ) (now : ℤ) → Call
  sweeps : (queue : String) (now : ℤ) → Call

unfoldable pub step : Call → Jobs → Jobs
step (enqueues now created queue payload run_at delay priority max_attempts expires) db =
    (enqueue now created queue payload run_at delay priority max_attempts expires db).1
step (claims queue worker n timeout now) db = (claim_batch queue worker n timeout now db).1
step (acks job worker now) db = (ack job worker now db).1
step (acks_fenced job worker attempt) db = (ack_fenced job worker attempt db).1
step (acks_batch items worker now) db = (ack_batch items worker now db).1
step (retries job worker delay error attempt now later last died) db =
    (retry_with job worker delay error attempt now later last died db).1
step (fails job worker error attempt now died) db = (fail job worker error attempt now died db).1
step (cancels job) db = (cancel job db).1
step (cancels_in_queue queue job) db = (cancel_in_queue queue job db).1
step (heartbeats job worker extend_s now) db = (heartbeat job worker extend_s now db).1
step (heartbeats_fenced job worker extend_s attempt now) db =
    (heartbeat_fenced job worker extend_s attempt now db).1
step (sweeps queue now) db = (sweep_expired queue now db).1

unfoldable pub run : Jobs → List Call → Jobs
run db [] = db
run db (c ∷ cs) = run (step c db) cs

step-IsValid : (c : Call) (db : Jobs) → IsValid db → IsValid (step c db)
unfolding step ack ack_fenced ack_batch cancel cancel_in_queue
step-IsValid (enqueues now created queue payload run_at delay priority max_attempts expires) db =
    (enqueue-Preserves now created queue payload run_at delay priority max_attempts expires).at db
step-IsValid (claims queue worker n timeout now) db =
    (claim_batch-Preserves queue worker n timeout now).at db
step-IsValid (acks job worker now) db = (delete_where-Preserves _).at db
step-IsValid (acks_fenced job worker attempt) db = (delete_where-Preserves _).at db
step-IsValid (acks_batch items worker now) db = (delete_where-Preserves _).at db
step-IsValid (retries job worker delay error attempt now later last died) db =
    (retry_with-Preserves job worker delay error attempt now later last died).at db
step-IsValid (fails job worker error attempt now died) db =
    (fail-Preserves job worker error attempt now died).at db
step-IsValid (cancels job) db = (delete_where-Preserves _).at db
step-IsValid (cancels_in_queue queue job) db = (delete_where-Preserves _).at db
step-IsValid (heartbeats job worker extend_s now) db =
    (heartbeat-Preserves job worker extend_s now).at db
step-IsValid (heartbeats_fenced job worker extend_s attempt now) db =
    (heartbeat_fenced-Preserves job worker extend_s attempt now).at db
step-IsValid (sweeps queue now) db = (sweep_expired-Preserves queue now).at db

-- From a valid database, every history of calls, successful or not, leads to a valid one.
pub run-IsValid : (cs : List Call) (db : Jobs) → IsValid db → IsValid (run db cs)
unfolding run
run-IsValid [] db v = v
run-IsValid (c ∷ cs) db v = run-IsValid cs (step c db) (step-IsValid c db v)
