-- ===== src/Sql/JobCalls.antt =====
-- The SQL functions on jobs (honker-core/src/honker_ops.rs, `attach_honker_functions`).
use honker.Base.{ℕ, String, Option, none, some, List}
use honker.Action.{Action, ok, lift, pure, ◌>>=◌, Result}
use honker.Sql.{Database, asks, Body, on_jobs, number, claimed_jobs, job_row, unix_time}
use honker.Queue.Finish.{ack_batch, ack_fenced, fail, ack, retry_with, AckItem}
use honker.Queue.Claim.{claim_batch, sweep_expired}
use honker.Queue.Deadline.{queue_next_claim_at}
use honker.Queue.Manage.{get_job, heartbeat_fenced, heartbeat, cancel, cancel_in_queue}
use honker.Queue.Submit.{enqueue}
use honker.Queue.Rows.{Jobs, Row}
use honker.Base.Int.{negsuc, ℤ, pos}

-- No job has a negative id and no claim a negative number, so that a statement that asks for one finds
-- no row.
abbrev pub by_number : ℤ → (ℕ → Action Jobs ℕ) → Action Jobs ℕ
by_number (pos n) f = f n
by_number (negsuc _) f = pure 0

abbrev pub by_attempt : ℤ → ℤ → (ℕ → ℕ → Action Jobs ℕ) → Action Jobs ℕ
by_attempt id attempt f = by_number id (λ n. by_number attempt (f n))

abbrev pub job_of : ℤ → Database → Result (Option Row)
job_of (pos n) db = get_job n db.jobs
job_of (negsuc _) db = ok none

-- `ack_items` is what SQLite's `json_each` reads out of the text of ids.
module _ (ack_items : String → Result (List AckItem)) where
  unfoldable pub honker_ack_batch : Body
  honker_ack_batch c t = do
    ids_json ← lift (c.get_text 0)
    worker ← lift (c.get_text 1)
    items ← lift (ack_items ids_json)
    on_jobs number (ack_batch items worker (t 0))

unfoldable pub honker_claim_batch : Body
honker_claim_batch c t = do
  queue ← lift (c.get_text 0)
  worker ← lift (c.get_text 1)
  n ← lift (c.i64 2)
  timeout_s ← lift (c.i64 3)
  on_jobs claimed_jobs (claim_batch queue worker n timeout_s (t 0))

unfoldable pub honker_queue_next_claim_at : Body
honker_queue_next_claim_at c t = do
  queue ← lift (c.get_text 0)
  asks unix_time (λ db. queue_next_claim_at queue (t 0) db.jobs)

unfoldable pub honker_sweep_expired : Body
honker_sweep_expired c t = do
  queue ← lift (c.get_text 0)
  on_jobs number (sweep_expired queue (t 0))

unfoldable pub honker_enqueue : Body
honker_enqueue c t = do
  queue ← lift (c.get_text 0)
  payload ← lift (c.get_text 1)
  run_at ← lift (c.opt_i64 2)
  delay ← lift (c.opt_i64 3)
  priority ← lift (c.i64 4)
  max_attempts ← lift (c.i64 5)
  expires ← lift (c.opt_i64 6)
  on_jobs number (enqueue (t 0) (t 1) queue payload run_at delay priority max_attempts expires)

unfoldable pub honker_ack : Body
honker_ack c t = do
  id ← lift (c.i64 0)
  worker ← lift (c.get_text 1)
  on_jobs number (by_number id (λ n. ack n worker (t 0)))

unfoldable pub honker_ack_fenced : Body
honker_ack_fenced c t = do
  id ← lift (c.i64 0)
  worker ← lift (c.get_text 1)
  attempt ← lift (c.i64 2)
  on_jobs number (by_attempt id attempt (λ n a. ack_fenced n worker a))

unfoldable pub honker_retry : Body
honker_retry c t = do
  id ← lift (c.i64 0)
  worker ← lift (c.get_text 1)
  delay_s ← lift (c.i64 2)
  error ← lift (c.get_text 3)
  on_jobs number
      (by_number id (λ n. retry_with n worker delay_s error none (t 0) (t 1) (t 2) (t 3)))

unfoldable pub honker_retry_fenced : Body
honker_retry_fenced c t = do
  id ← lift (c.i64 0)
  worker ← lift (c.get_text 1)
  delay_s ← lift (c.i64 2)
  error ← lift (c.get_text 3)
  attempt ← lift (c.i64 4)
  on_jobs number (
      by_attempt id attempt
        (λ n a. retry_with n worker delay_s error (some a) (t 0) (t 1) (t 2) (t 3)))

unfoldable pub honker_fail : Body
honker_fail c t = do
  id ← lift (c.i64 0)
  worker ← lift (c.get_text 1)
  error ← lift (c.get_text 2)
  on_jobs number (by_number id (λ n. fail n worker error none (t 0) (t 1)))

unfoldable pub honker_fail_fenced : Body
honker_fail_fenced c t = do
  id ← lift (c.i64 0)
  worker ← lift (c.get_text 1)
  error ← lift (c.get_text 2)
  attempt ← lift (c.i64 3)
  on_jobs number (by_attempt id attempt (λ n a. fail n worker error (some a) (t 0) (t 1)))

unfoldable pub honker_heartbeat : Body
honker_heartbeat c t = do
  id ← lift (c.i64 0)
  worker ← lift (c.get_text 1)
  extend_s ← lift (c.i64 2)
  on_jobs number (by_number id (λ n. heartbeat n worker extend_s (t 0)))

unfoldable pub honker_heartbeat_fenced : Body
honker_heartbeat_fenced c t = do
  id ← lift (c.i64 0)
  worker ← lift (c.get_text 1)
  extend_s ← lift (c.i64 2)
  attempt ← lift (c.i64 3)
  on_jobs number (by_attempt id attempt (λ n a. heartbeat_fenced n worker extend_s a (t 0)))

unfoldable pub honker_cancel : Body
honker_cancel c t = do id ← lift (c.i64 0); on_jobs number (by_number id cancel)

unfoldable pub honker_cancel_in_queue : Body
honker_cancel_in_queue c t = do
  queue ← lift (c.get_text 0)
  id ← lift (c.i64 1)
  on_jobs number (by_number id (cancel_in_queue queue))

unfoldable pub honker_get_job : Body
honker_get_job c t = do id ← lift (c.i64 0); asks job_row (job_of id)
