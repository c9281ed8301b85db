-- ===== src/Sql/Registry.antt =====
-- What `attach_honker_functions` registers, and a call of it (honker-core/src/honker_ops.rs).
use honker.Base.{
  Bool, ℕ, zero, suc, String, ◌&&◌, Option, none, some, List, [], ◌∷◌, str_eq, is_some, ◌==◌,
  length,
}
use honker.Action.{raise, Action, no_such_function, Result}
use honker.Sql.{Reply, Value, Database, Body, null, context, FromSql}
use honker.Queue.Finish.{AckItem}
use honker.Base.Int.{ℤ}
use honker.Sql.TableCalls.{
  honker_result_save, honker_result_sweep, honker_stream_save_offset, honker_stream_read_since,
  honker_lock_acquire, honker_stream_get_offset, honker_lock_renew, honker_result_get,
  honker_rate_limit_sweep, honker_rate_limit_try, honker_lock_release, honker_stream_publish,
}
use honker.Sql.TaskCalls.{
  honker_scheduler_update_max, honker_cron_next_after, honker_scheduler_soonest,
  honker_scheduler_register, honker_scheduler_register_max, honker_scheduler_pause,
  honker_scheduler_resume, honker_scheduler_unregister, honker_scheduler_list,
  honker_scheduler_tick, honker_scheduler_update,
}
use honker.Sql.JobCalls.{
  honker_enqueue, honker_heartbeat_fenced, honker_cancel, honker_cancel_in_queue, honker_ack,
  honker_claim_batch, honker_retry_fenced, honker_retry, honker_queue_next_claim_at, honker_fail,
  honker_ack_batch, honker_ack_fenced, honker_fail_fenced, honker_sweep_expired, honker_heartbeat,
  honker_get_job,
}
use honker.Table.Upsert.{find}

-- SQLite keeps a function by its name and the number of its arguments.
pub record Registration : Type 0 where
  pub name : String
  pub n_arg : ℕ
  pub body : Body

abbrev pub create_scalar_function : String → ℕ → Body → Registration
create_scalar_function name n body = record { name = name; n_arg = n; body = body }

abbrev pub is_function : String → ℕ → Registration → Bool
is_function name n f = str_eq f.name name && f.n_arg == n

abbrev pub nth : List Value → ℕ → Value
nth [] i = null
nth (v ∷ vs) zero = v
nth (v ∷ vs) (suc i) = nth vs i

-- All but `honker_bootstrap`.
module _ (next_after : String → ℤ → Result ℤ) (ack_items : String → Result (List AckItem)) where
  abbrev pub attach_honker_functions : List Registration
  attach_honker_functions =
      create_scalar_function "honker_claim_batch" 4 honker_claim_batch
      ∷ create_scalar_function "honker_ack_batch" 2 (honker_ack_batch ack_items)
      ∷ create_scalar_function "honker_queue_next_claim_at" 1 honker_queue_next_claim_at
      ∷ create_scalar_function "honker_sweep_expired" 1 honker_sweep_expired
      ∷ create_scalar_function "honker_lock_acquire" 3 honker_lock_acquire
      ∷ create_scalar_function "honker_lock_release" 2 honker_lock_release
      ∷ create_scalar_function "honker_lock_renew" 3 honker_lock_renew
      ∷ create_scalar_function "honker_rate_limit_try" 3 honker_rate_limit_try
      ∷ create_scalar_function "honker_rate_limit_sweep" 1 honker_rate_limit_sweep
      ∷ create_scalar_function "honker_scheduler_register" 6 (honker_scheduler_register next_after)
      ∷ create_scalar_function "honker_scheduler_register" 7
          (honker_scheduler_register_max next_after)
      ∷ create_scalar_function "honker_scheduler_unregister" 1 honker_scheduler_unregister
      ∷ create_scalar_function "honker_scheduler_tick" 1 (honker_scheduler_tick next_after)
      ∷ create_scalar_function "honker_scheduler_soonest" 0 honker_scheduler_soonest
      ∷ create_scalar_function "honker_scheduler_pause" 1 honker_scheduler_pause
      ∷ create_scalar_function "honker_scheduler_resume" 1 honker_scheduler_resume
      ∷ create_scalar_function "honker_scheduler_list" 0 honker_scheduler_list
      ∷ create_scalar_function "honker_scheduler_update" 6 (honker_scheduler_update next_after)
      ∷ create_scalar_function "honker_scheduler_update" 8 (honker_scheduler_update_max next_after)
      ∷ create_scalar_function "honker_result_save" 3 honker_result_save
      ∷ create_scalar_function "honker_result_get" 1 honker_result_get
      ∷ create_scalar_function "honker_result_sweep" 0 honker_result_sweep
      ∷ create_scalar_function "honker_enqueue" 7 honker_enqueue
      ∷ create_scalar_function "honker_ack" 2 honker_ack
      ∷ create_scalar_function "honker_ack" 3 honker_ack_fenced
      ∷ create_scalar_function "honker_retry" 4 honker_retry
      ∷ create_scalar_function "honker_retry" 5 honker_retry_fenced
      ∷ create_scalar_function "honker_fail" 3 honker_fail
      ∷ create_scalar_function "honker_fail" 4 honker_fail_fenced
      ∷ create_scalar_function "honker_heartbeat" 3 honker_heartbeat
      ∷ create_scalar_function "honker_heartbeat" 4 honker_heartbeat_fenced
      ∷ create_scalar_function "honker_cancel" 1 honker_cancel
      ∷ create_scalar_function "honker_cancel" 2 honker_cancel_in_queue
      ∷ create_scalar_function "honker_get_job" 1 honker_get_job
      ∷ create_scalar_function "honker_cron_next_after" 2 (honker_cron_next_after next_after)
      ∷ create_scalar_function "honker_stream_publish" 3 honker_stream_publish
      ∷ create_scalar_function "honker_stream_read_since" 3 honker_stream_read_since
      ∷ create_scalar_function "honker_stream_save_offset" 3 honker_stream_save_offset
      ∷ create_scalar_function "honker_stream_get_offset" 2 honker_stream_get_offset
      ∷ []

  abbrev pub apply : FromSql → Option Registration → List Value → (ℕ → ℤ) → Action Database Reply
  apply g none args t = raise no_such_function
  apply g (some f) args t = f.body (context g (nth args)) t

  -- `SELECT name(args)`: SQLite finds the function by its name and the number of arguments.
  unfoldable pub call : FromSql → String → List Value → (ℕ → ℤ) → Action Database Reply
  call g name args t =
      apply g (find (is_function name (length args)) attach_honker_functions) args t

  -- The probe whether a connection has the two-argument form of `honker_cancel`.
  unfoldable pub has_queue_scoped_cancel : Bool
  has_queue_scoped_cancel = is_some (find (is_function "honker_cancel" 2) attach_honker_functions)
