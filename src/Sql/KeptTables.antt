-- ===== src/Sql/KeptTables.antt =====
-- The SQL functions on locks, rate limits, results and streams keep the invariants of the tables (honker-core/src/honker_ops.rs).
use honker.Base.{ℕ}
use honker.Stream.{stream_read_since, stream_get_offset}
use honker.Results.{result_get}
use honker.Sql.{unix_time, event_rows, number, Context, result_value}
use honker.Base.Int.{ℤ}
use honker.Sql.TableCalls.{
  honker_stream_publish, honker_stream_get_offset, honker_lock_release, honker_result_sweep,
  honker_lock_acquire, honker_result_save, honker_stream_read_since, honker_lock_renew,
  honker_stream_save_offset, honker_rate_limit_try, honker_rate_limit_sweep, honker_result_get,
}
use honker.Sql.Operations.{result_op, lock_op, reads, query, stream_op, KeepsAll, window_op}
use honker.Sql.Sound.{
  result_sweep-Keeps, stream_publish-Keeps, lock_release-Keeps, rate_limit_try-Keeps,
  stream_save_offset-Keeps, rate_limit_sweep-Keeps, lock_acquire-Keeps, result_save-Keeps,
  lock_renew-Keeps,
}

pub honker_lock_acquire-Keeps : (c : Context) (t : ℕ → ℤ) → KeepsAll (honker_lock_acquire c t)
unfolding honker_lock_acquire
honker_lock_acquire-Keeps c t = reads (c.get_text 0) (λ name. reads (c.get_text 1) (λ owner.
    reads (c.i64 2) (λ ttl. lock_op number (lock_acquire-Keeps name owner ttl (t 0) (t 1)))))

pub honker_lock_release-Keeps : (c : Context) (t : ℕ → ℤ) → KeepsAll (honker_lock_release c t)
unfolding honker_lock_release
honker_lock_release-Keeps c t =
    reads (c.get_text 0)
      (λ name. reads (c.get_text 1) (λ owner. lock_op number (lock_release-Keeps name owner)))

pub honker_lock_renew-Keeps : (c : Context) (t : ℕ → ℤ) → KeepsAll (honker_lock_renew c t)
unfolding honker_lock_renew
honker_lock_renew-Keeps c t = reads (c.get_text 0) (λ name.
    reads (c.get_text 1)
      (λ owner. reads (c.i64 2) (λ ttl. lock_op number (lock_renew-Keeps name owner ttl (t 0)))))

pub honker_rate_limit_try-Keeps : (c : Context) (t : ℕ → ℤ) → KeepsAll (honker_rate_limit_try c t)
unfolding honker_rate_limit_try
honker_rate_limit_try-Keeps c t = reads (c.get_text 0) (λ name. reads (c.i64 1) (λ limit.
    reads (c.i64 2) (λ per. window_op number (rate_limit_try-Keeps name limit per (t 0)))))

pub honker_rate_limit_sweep-Keeps :
    (c : Context) (t : ℕ → ℤ) → KeepsAll (honker_rate_limit_sweep c t)
unfolding honker_rate_limit_sweep
honker_rate_limit_sweep-Keeps c t =
    reads (c.i64 0) (λ older_than_s. window_op number (rate_limit_sweep-Keeps older_than_s (t 0)))

pub honker_result_save-Keeps : (c : Context) (t : ℕ → ℤ) → KeepsAll (honker_result_save c t)
unfolding honker_result_save
honker_result_save-Keeps c t = reads (c.i64 0) (λ id. reads (c.get_text 1) (λ value.
    reads (c.i64 2) (λ ttl_s. result_op number (result_save-Keeps id value ttl_s (t 0) (t 1)))))

pub honker_result_get-Keeps : (c : Context) (t : ℕ → ℤ) → KeepsAll (honker_result_get c t)
unfolding honker_result_get
honker_result_get-Keeps c t =
    reads (c.i64 0) (λ id. query result_value (λ db. result_get id (t 0) db.results))

pub honker_result_sweep-Keeps : (c : Context) (t : ℕ → ℤ) → KeepsAll (honker_result_sweep c t)
unfolding honker_result_sweep
honker_result_sweep-Keeps c t = result_op number (result_sweep-Keeps (t 0))

pub honker_stream_publish-Keeps : (c : Context) (t : ℕ → ℤ) → KeepsAll (honker_stream_publish c t)
unfolding honker_stream_publish
honker_stream_publish-Keeps c t = reads (c.get_text 0) (λ topic. reads (c.opt_text 1) (λ key.
    reads (c.get_text 2)
      (λ payload. stream_op number (stream_publish-Keeps topic key payload (t 0)))))

pub honker_stream_read_since-Keeps :
    (c : Context) (t : ℕ → ℤ) → KeepsAll (honker_stream_read_since c t)
unfolding honker_stream_read_since
honker_stream_read_since-Keeps c t = reads (c.get_text 0) (λ topic. reads (c.i64 1) (λ offset.
    reads (c.i64 2)
      (λ limit. query event_rows (λ db. stream_read_since topic offset limit db.streams))))

pub honker_stream_save_offset-Keeps :
    (c : Context) (t : ℕ → ℤ) → KeepsAll (honker_stream_save_offset c t)
unfolding honker_stream_save_offset
honker_stream_save_offset-Keeps c t = reads (c.get_text 0) (λ consumer.
    reads (c.get_text 1) (λ topic.
      reads (c.i64 2)
        (λ offset. stream_op number (stream_save_offset-Keeps consumer topic offset))))

pub honker_stream_get_offset-Keeps :
    (c : Context) (t : ℕ → ℤ) → KeepsAll (honker_stream_get_offset c t)
unfolding honker_stream_get_offset
honker_stream_get_offset-Keeps c t = reads (c.get_text 0) (λ consumer.
    reads (c.get_text 1)
      (λ topic. query unix_time (λ db. stream_get_offset consumer topic db.streams)))
