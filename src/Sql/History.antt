-- ===== src/Sql/History.antt =====
-- Histories of calls of the SQL functions (honker-core/src/honker_ops.rs).
use honker.Base.{
  Bool, ℕ, String, ◌≡◌, refl, subst, inl, inr, Option, none, some, List, [], ◌∷◌, arith, Bool-cases,
  length, All,
}
use honker.Action.{Result}
use honker.Sql.{Context, context, Value, Database, FromSql}
use honker.Queue.Finish.{AckItem}
use honker.Base.Int.{ℤ}
use honker.Sql.KeptTables.{
  honker_stream_get_offset-Keeps, honker_lock_acquire-Keeps, honker_lock_renew-Keeps,
  honker_result_get-Keeps, honker_stream_read_since-Keeps, honker_rate_limit_sweep-Keeps,
  honker_result_save-Keeps, honker_stream_publish-Keeps, honker_stream_save_offset-Keeps,
  honker_result_sweep-Keeps, honker_lock_release-Keeps, honker_rate_limit_try-Keeps,
}
use honker.Sql.Operations.{Sound, KeepsAll}
use honker.Sql.KeptTasks.{
  honker_scheduler_update-Keeps, honker_scheduler_update_max-Keeps,
  honker_scheduler_register_max-Keeps, honker_scheduler_resume-Keeps,
  honker_scheduler_unregister-Keeps, honker_scheduler_pause-Keeps, honker_scheduler_list-Keeps,
  honker_scheduler_register-Keeps, honker_scheduler_tick-Keeps, honker_cron_next_after-Keeps,
  honker_scheduler_soonest-Keeps,
}
use honker.Sql.Registry.{nth, is_function, Registration, call, apply, attach_honker_functions}
use honker.Sql.KeptJobs.{
  honker_ack_fenced-Keeps, honker_ack-Keeps, honker_retry-Keeps, honker_fail-Keeps,
  honker_ack_batch-Keeps, honker_fail_fenced-Keeps, honker_enqueue-Keeps,
  honker_sweep_expired-Keeps, honker_cancel-Keeps, honker_cancel_in_queue-Keeps,
  honker_heartbeat_fenced-Keeps, honker_heartbeat-Keeps, honker_claim_batch-Keeps,
  honker_get_job-Keeps, honker_queue_next_claim_at-Keeps, honker_retry_fenced-Keeps,
}
use honker.Table.Upsert.{find}

-- `SELECT name(args)`, with the readings of the clock in its statements.
pub record SqlCall : Type 0 where
  pub name : String
  pub args : List Value
  pub clock : ℕ → ℤ

find-All :
    {A : Type 0} (P : A → Type 0) (p : A → Bool) (xs : List A) (x : A)
    → All P xs
    → find p xs ≡ some x
    → P x
find-All P p [] x h e = absurd (ground (arith, e))
find-All P p (y ∷ ys) x h e = elim (Bool-cases (p y)) [
  | inl c ↦ subst P (ground (arith, c, e)) h.0
  | inr c ↦ find-All P p ys x h.1 (ground (arith, c, e))
]

module _ (next_after : String → ℤ → Result ℤ) (ack_items : String → Result (List AckItem))
    (g : FromSql) where
  -- The calls of any number of connections, one after the other.
  unfoldable pub run_calls : List SqlCall → Database → Database
  run_calls [] db = db
  run_calls (c ∷ cs) db = run_calls cs (call next_after ack_items g c.name c.args c.clock db).1

  abbrev BodyKeeps : Registration → Type 0
  BodyKeeps f = (c : Context) (t : ℕ → ℤ) → KeepsAll (f.body c t)

  functions-Keep : All BodyKeeps (attach_honker_functions next_after ack_items)
  functions-Keep = (
    honker_claim_batch-Keeps,
    (
      honker_ack_batch-Keeps ack_items,
      (
        honker_queue_next_claim_at-Keeps,
        (
          honker_sweep_expired-Keeps,
          (
            honker_lock_acquire-Keeps,
            (
              honker_lock_release-Keeps,
              (
                honker_lock_renew-Keeps,
                (
                  honker_rate_limit_try-Keeps,
                  (
                    honker_rate_limit_sweep-Keeps,
                    (
                      honker_scheduler_register-Keeps next_after,
                      (
                        honker_scheduler_register_max-Keeps next_after,
                        (
                          honker_scheduler_unregister-Keeps,
                          (
                            honker_scheduler_tick-Keeps next_after,
                            (
                              honker_scheduler_soonest-Keeps,
                              (
                                honker_scheduler_pause-Keeps,
                                (
                                  honker_scheduler_resume-Keeps,
                                  (
                                    honker_scheduler_list-Keeps,
                                    (
                                      honker_scheduler_update-Keeps next_after,
                                      (
                                        honker_scheduler_update_max-Keeps next_after,
                                        (
                                          honker_result_save-Keeps,
                                          (
                                            honker_result_get-Keeps,
                                            (
                                              honker_result_sweep-Keeps,
                                              (
                                                honker_enqueue-Keeps,
                                                (
                                                  honker_ack-Keeps,
                                                  (
                                                    honker_ack_fenced-Keeps,
                                                    (
                                                      honker_retry-Keeps,
                                                      (
                                                        honker_retry_fenced-Keeps,
                                                        (
                                                          honker_fail-Keeps,
                                                          (
                                                            honker_fail_fenced-Keeps,
                                                            (
                                                            honker_heartbeat-Keeps,
                                                            (
                                                            honker_heartbeat_fenced-Keeps,
                                                            (
                                                            honker_cancel-Keeps,
                                                            (
                                                            honker_cancel_in_queue-Keeps,
                                                            (
                                                            honker_get_job-Keeps,
                                                            (
                                                            honker_cron_next_after-Keeps next_after,
                                                            (
                                                            honker_stream_publish-Keeps,
                                                            (
                                                            honker_stream_read_since-Keeps,
                                                            (
                                                            honker_stream_save_offset-Keeps,
                                                            (honker_stream_get_offset-Keeps, tt),
                                                            ),
                                                            ),
                                                            ),
                                                            ),
                                                            ),
                                                            ),
                                                            ),
                                                            ),
                                                            ),
                                                          ),
                                                        ),
                                                      ),
                                                    ),
                                                  ),
                                                ),
                                              ),
                                            ),
                                          ),
                                        ),
                                      ),
                                    ),
                                  ),
                                ),
                              ),
                            ),
                          ),
                        ),
                      ),
                    ),
                  ),
                ),
              ),
            ),
          ),
        ),
      ),
    ),
  )

  apply-Keeps :
      (o : Option Registration) (args : List Value) (t : ℕ → ℤ)
      → ((f : Registration) → o ≡ some f → BodyKeeps f)
      → KeepsAll (apply next_after ack_items g o args t)
  apply-Keeps none args t h = record { at = λ s k. k }
  apply-Keeps (some f) args t h = h f refl (context g (nth args)) t

  call-Keeps :
      (name : String) (args : List Value) (t : ℕ → ℤ)
      → KeepsAll (call next_after ack_items g name args t)
  unfolding call
  call-Keeps name args t =
      apply-Keeps
        (find (is_function name (length args)) (attach_honker_functions next_after ack_items)) args
        t
        (λ f e.
          find-All BodyKeeps (is_function name (length args))
            (attach_honker_functions next_after ack_items) f functions-Keep e)

  -- Every history of calls of the SQL functions, with any arguments, at any times and successful or not,
  -- keeps the invariants of all tables: jobs stand once each and fit their states; no lock, task, result,
  -- rate-limit window or consumer stands twice; the events of the streams are in order; and every task
  -- may enqueue a job.
  pub run_calls-Sound : (cs : List SqlCall) (db : Database) → Sound db → Sound (run_calls cs db)
  unfolding run_calls
  run_calls-Sound [] db h = h
  run_calls-Sound (c ∷ cs) db h =
      run_calls-Sound cs (call next_after ack_items g c.name c.args c.clock db).1
        ((call-Keeps c.name c.args c.clock).at db h)
