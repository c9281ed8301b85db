-- ===== src/Sql/TableCalls.antt =====
-- The SQL functions on locks, rate limits, results and streams (honker-core/src/honker_ops.rs,
-- `attach_honker_functions`).
use honker.Action.{lift, ◌>>=◌}
use honker.Lock.{lock_release, lock_renew, lock_acquire}
use honker.Table.{limit}
use honker.RateLimit.{rate_limit_sweep, rate_limit_try}
use honker.Stream.{stream_get_offset, stream_read_since, stream_publish, stream_save_offset}
use honker.Results.{result_save, result_sweep, result_get}
use honker.Sql.{
  on_results, on_streams, asks, Body, on_windows, number, on_locks, event_rows, result_value,
  unix_time,
}

unfoldable pub honker_lock_acquire : Body
honker_lock_acquire c t = do
  name ← lift (c.get_text 0)
  owner ← lift (c.get_text 1)
  ttl ← lift (c.i64 2)
  on_locks number (lock_acquire name owner ttl (t 0) (t 1))

unfoldable pub honker_lock_release : Body
honker_lock_release c t = do
  name ← lift (c.get_text 0)
  owner ← lift (c.get_text 1)
  on_locks number (lock_release name owner)

unfoldable pub honker_lock_renew : Body
honker_lock_renew c t = do
  name ← lift (c.get_text 0)
  owner ← lift (c.get_text 1)
  ttl ← lift (c.i64 2)
  on_locks number (lock_renew name owner ttl (t 0))

unfoldable pub honker_rate_limit_try : Body
honker_rate_limit_try c t = do
  name ← lift (c.get_text 0)
  limit ← lift (c.i64 1)
  per ← lift (c.i64 2)
  on_windows number (rate_limit_try name limit per (t 0))

unfoldable pub honker_rate_limit_sweep : Body
honker_rate_limit_sweep c t = do
  older_than_s ← lift (c.i64 0)
  on_windows number (rate_limit_sweep older_than_s (t 0))

unfoldable pub honker_result_save : Body
honker_result_save c t = do
  id ← lift (c.i64 0)
  value ← lift (c.get_text 1)
  ttl_s ← lift (c.i64 2)
  on_results number (result_save id value ttl_s (t 0) (t 1))

unfoldable pub honker_result_get : Body
honker_result_get c t = do
  id ← lift (c.i64 0)
  asks result_value (λ db. result_get id (t 0) db.results)

unfoldable pub honker_result_sweep : Body
honker_result_sweep c t = on_results number (result_sweep (t 0))

unfoldable pub honker_stream_publish : Body
honker_stream_publish c t = do
  topic ← lift (c.get_text 0)
  key ← lift (c.opt_text 1)
  payload ← lift (c.get_text 2)
  on_streams number (stream_publish topic key payload (t 0))

unfoldable pub honker_stream_read_since : Body
honker_stream_read_since c t = do
  topic ← lift (c.get_text 0)
  offset ← lift (c.i64 1)
  limit ← lift (c.i64 2)
  asks event_rows (λ db. stream_read_since topic offset limit db.streams)

unfoldable pub honker_stream_save_offset : Body
honker_stream_save_offset c t = do
  consumer ← lift (c.get_text 0)
  topic ← lift (c.get_text 1)
  offset ← lift (c.i64 2)
  on_streams number (stream_save_offset consumer topic offset)

unfoldable pub honker_stream_get_offset : Body
honker_stream_get_offset c t = do
  consumer ← lift (c.get_text 0)
  topic ← lift (c.get_text 1)
  asks unix_time (λ db. stream_get_offset consumer topic db.streams)
