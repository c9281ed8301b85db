-- ===== src/Sql/KeptJobs.antt =====
-- The SQL functions on jobs keep the invariants of the tables (honker-core/src/honker_ops.rs).
use honker.Base.{ℕ, String, none, some, List}
use honker.Action.{Result}
use honker.Sql.{job_row, unix_time, claimed_jobs, number, Context}
use honker.Queue.Finish.{AckItem}
use honker.Queue.Deadline.{queue_next_claim_at}
use honker.Queue.Valid.Calls.{
  heartbeat-Preserves, fail-Preserves, heartbeat_fenced-Preserves, enqueue-Preserves,
  retry_with-Preserves,
}
use honker.Queue.Valid.Steps.{claim_batch-Preserves, sweep_expired-Preserves}
use honker.Base.Int.{ℤ}
use honker.Sql.Operations.{
  cancel_in_queue-Preserves, ack_fenced-Preserves, reads, job_op, by_number-Preserves, query,
  cancel-Preserves, ack-Preserves, ack_batch-Preserves, KeepsAll, by_attempt-Preserves,
}
use honker.Sql.JobCalls.{
  honker_cancel, honker_heartbeat, honker_ack, honker_enqueue, honker_ack_fenced,
  honker_heartbeat_fenced, job_of, honker_ack_batch, honker_fail, honker_sweep_expired,
  honker_fail_fenced, honker_queue_next_claim_at, honker_retry, honker_get_job,
  honker_cancel_in_queue, honker_retry_fenced, honker_claim_batch,
}

pub honker_ack_batch-Keeps :
    (ack_items : String → Result (List AckItem)) (c : Context) (t : ℕ → ℤ)
    → KeepsAll (honker_ack_batch ack_items c t)
unfolding honker_ack_batch
honker_ack_batch-Keeps ack_items c t = reads (c.get_text 0) (λ ids_json.
    reads (c.get_text 1) (λ worker.
      reads (ack_items ids_json) (λ items. job_op number (ack_batch-Preserves items worker (t 0)))))

pub honker_claim_batch-Keeps : (c : Context) (t : ℕ → ℤ) → KeepsAll (honker_claim_batch c t)
unfolding honker_claim_batch
honker_claim_batch-Keeps c t = reads (c.get_text 0) (λ queue. reads (c.get_text 1) (λ worker.
    reads (c.i64 2) (λ n.
      reads (c.i64 3)
        (λ timeout_s. job_op claimed_jobs (claim_batch-Preserves queue worker n timeout_s (t 0))))))

pub honker_queue_next_claim_at-Keeps :
    (c : Context) (t : ℕ → ℤ) → KeepsAll (honker_queue_next_claim_at c t)
unfolding honker_queue_next_claim_at
honker_queue_next_claim_at-Keeps c t =
    reads (c.get_text 0) (λ queue. query unix_time (λ db. queue_next_claim_at queue (t 0) db.jobs))

pub honker_sweep_expired-Keeps : (c : Context) (t : ℕ → ℤ) → KeepsAll (honker_sweep_expired c t)
unfolding honker_sweep_expired
honker_sweep_expired-Keeps c t =
    reads (c.get_text 0) (λ queue. job_op number (sweep_expired-Preserves queue (t 0)))

pub honker_enqueue-Keeps : (c : Context) (t : ℕ → ℤ) → KeepsAll (honker_enqueue c t)
unfolding honker_enqueue
honker_enqueue-Keeps c t = reads (c.get_text 0) (λ queue. reads (c.get_text 1) (λ payload.
    reads (c.opt_i64 2) (λ run_at. reads (c.opt_i64 3) (λ delay. reads (c.i64 4) (λ priority.
      reads (c.i64 5) (λ max_attempts. reads (c.opt_i64 6) (λ expires. job_op number (
        enqueue-Preserves (t 0) (t 1) queue payload run_at delay priority max_attempts
          expires))))))))

pub honker_ack-Keeps : (c : Context) (t : ℕ → ℤ) → KeepsAll (honker_ack c t)
unfolding honker_ack
honker_ack-Keeps c t = reads (c.i64 0) (λ id.
    reads (c.get_text 1)
      (λ worker. job_op number (by_number-Preserves id (λ n. ack-Preserves n worker (t 0)))))

pub honker_ack_fenced-Keeps : (c : Context) (t : ℕ → ℤ) → KeepsAll (honker_ack_fenced c t)
unfolding honker_ack_fenced
honker_ack_fenced-Keeps c t = reads (c.i64 0) (λ id. reads (c.get_text 1) (λ worker.
    reads (c.i64 2) (λ attempt.
      job_op number (by_attempt-Preserves id attempt (λ n a. ack_fenced-Preserves n worker a)))))

pub honker_retry-Keeps : (c : Context) (t : ℕ → ℤ) → KeepsAll (honker_retry c t)
unfolding honker_retry
honker_retry-Keeps c t = reads (c.i64 0) (λ id. reads (c.get_text 1) (λ worker.
    reads (c.i64 2) (λ delay_s. reads (c.get_text 3) (λ error. job_op number (
      by_number-Preserves id
        (λ n. retry_with-Preserves n worker delay_s error none (t 0) (t 1) (t 2) (t 3)))))))

pub honker_retry_fenced-Keeps : (c : Context) (t : ℕ → ℤ) → KeepsAll (honker_retry_fenced c t)
unfolding honker_retry_fenced
honker_retry_fenced-Keeps c t = reads (c.i64 0) (λ id. reads (c.get_text 1) (λ worker.
    reads (c.i64 2) (λ delay_s. reads (c.get_text 3) (λ error. reads (c.i64 4) (λ attempt.
      job_op number (
        by_attempt-Preserves id attempt (λ n a.
          retry_with-Preserves n worker delay_s error (some a) (t 0) (t 1) (t 2) (t 3))))))))

pub honker_fail-Keeps : (c : Context) (t : ℕ → ℤ) → KeepsAll (honker_fail c t)
unfolding honker_fail
honker_fail-Keeps c t = reads (c.i64 0) (λ id. reads (c.get_text 1) (λ worker.
    reads (c.get_text 2) (λ error.
      job_op number
        (by_number-Preserves id (λ n. fail-Preserves n worker error none (t 0) (t 1))))))

pub honker_fail_fenced-Keeps : (c : Context) (t : ℕ → ℤ) → KeepsAll (honker_fail_fenced c t)
unfolding honker_fail_fenced
honker_fail_fenced-Keeps c t = reads (c.i64 0) (λ id. reads (c.get_text 1) (λ worker.
    reads (c.get_text 2) (λ error. reads (c.i64 3) (λ attempt. job_op number (
      by_attempt-Preserves id attempt
        (λ n a. fail-Preserves n worker error (some a) (t 0) (t 1)))))))

pub honker_heartbeat-Keeps : (c : Context) (t : ℕ → ℤ) → KeepsAll (honker_heartbeat c t)
unfolding honker_heartbeat
honker_heartbeat-Keeps c t = reads (c.i64 0) (λ id. reads (c.get_text 1) (λ worker.
    reads (c.i64 2) (λ extend_s.
      job_op number (by_number-Preserves id (λ n. heartbeat-Preserves n worker extend_s (t 0))))))

pub honker_heartbeat_fenced-Keeps :
    (c : Context) (t : ℕ → ℤ) → KeepsAll (honker_heartbeat_fenced c t)
unfolding honker_heartbeat_fenced
honker_heartbeat_fenced-Keeps c t = reads (c.i64 0) (λ id. reads (c.get_text 1) (λ worker.
    reads (c.i64 2) (λ extend_s. reads (c.i64 3) (λ attempt. job_op number (
      by_attempt-Preserves id attempt
        (λ n a. heartbeat_fenced-Preserves n worker extend_s a (t 0)))))))

pub honker_cancel-Keeps : (c : Context) (t : ℕ → ℤ) → KeepsAll (honker_cancel c t)
unfolding honker_cancel
honker_cancel-Keeps c t =
    reads (c.i64 0) (λ id. job_op number (by_number-Preserves id (cancel-Preserves)))

pub honker_cancel_in_queue-Keeps : (c : Context) (t : ℕ → ℤ) → KeepsAll (honker_cancel_in_queue c t)
unfolding honker_cancel_in_queue
honker_cancel_in_queue-Keeps c t = reads (c.get_text 0) (λ queue.
    reads (c.i64 1)
      (λ id. job_op number (by_number-Preserves id (cancel_in_queue-Preserves queue))))

pub honker_get_job-Keeps : (c : Context) (t : ℕ → ℤ) → KeepsAll (honker_get_job c t)
unfolding honker_get_job
honker_get_job-Keeps c t = reads (c.i64 0) (λ id. query job_row (job_of id))
