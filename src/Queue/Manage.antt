-- ===== src/Queue/Manage.antt =====
-- `cancel`, `cancel_in_queue`, `heartbeat`, `heartbeat_fenced` and `get_job`
-- (honker-core/src/honker_ops.rs).
use honker.Action.{Result, ok, invalid_column, err, Action}
use honker.Table.{select}
use honker.Queue.Finish.{update_where, leased, fenced, delete_where}
use honker.Queue.Rows.{has_id, State, is_scheduled, Jobs, is_pending, Row, is_processing}
use honker.Base.Int.{in_i64, ℤ, pos, ◌+ℤ◌}
use honker.Base.{
  ℕ, String, Bool, true, ◌&&◌, ◌||◌, Option, none, some, List, [], ◌∷◌, str_eq, if◌then◌else◌,
}

abbrev is_cancellable : State → Bool
is_cancellable s = is_pending s || is_scheduled s || is_processing s

unfoldable pub cancel : ℕ → Action Jobs ℕ
unfolding delete_where
cancel job = delete_where (λ r. has_id job r && is_cancellable r.state)

unfoldable pub cancel_in_queue : String → ℕ → Action Jobs ℕ
unfolding delete_where
cancel_in_queue queue job =
    delete_where (λ r. str_eq r.queue queue && has_id job r && is_cancellable r.state)

abbrev pub extend : ℤ → ℤ → Row → Row
extend extend_s now r = record r { claim_expires_at = some (now +ℤ extend_s) }

unfoldable pub heartbeat : ℕ → String → ℤ → ℤ → Action Jobs ℕ
unfolding update_where leased
heartbeat job worker extend_s now =
    update_where (λ r. leased job worker now r && is_processing r.state) (extend extend_s now)

unfoldable pub heartbeat_fenced : ℕ → String → ℤ → ℕ → ℤ → Action Jobs ℕ
unfolding update_where fenced
heartbeat_fenced job worker extend_s attempt now =
    update_where (fenced job worker attempt) (extend extend_s now)

abbrev pub opt_in_i64 : Option ℤ → Bool
opt_in_i64 none = true
opt_in_i64 (some t) = in_i64 t

abbrev read_row : List Row → Result (Option Row)
read_row [] = ok none
read_row (r ∷ rs) =
    if in_i64 r.priority
      && in_i64 r.run_at
      && opt_in_i64 r.claim_expires_at
      && in_i64 (pos r.attempts)
      && in_i64 r.max_attempts
      && in_i64 r.created_at
      && opt_in_i64 r.expires_at
      && opt_in_i64 r.claimed_at
    then ok (some r)
    else err invalid_column

-- The returned JSON object has the columns of the row; a miss is the empty string.
unfoldable pub get_job : ℕ → Jobs → Result (Option Row)
get_job job db = read_row (select (has_id job) db.live)
