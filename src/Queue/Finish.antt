-- ===== src/Queue/Finish.antt =====
-- The calls that end a claim: `ack`, `ack_fenced`, `ack_batch`, `retry_with` and `fail_inner`
-- (honker-core/src/honker_ops.rs). Each statement that says `unixepoch()` reads the clock anew, so
-- each has its own argument. The result of a write is the number of rows it changed.
use honker.Action.{
  ok, ◌>>◌, Action, in_savepoint, pure, constraint, err, Result, ◌>>=◌, invalid_column,
}
use honker.Table.{select, reject, update, contains, count_if}
use honker.Queue.Rows.{
  has_id, Jobs, is_processing, Row, holds_until, has_attempts, pending, is_worker, scheduled,
  DeadJob,
}
use honker.Base.Int.{ℤ, pos, ltb_ℤ, in_i64, ◌+ℤ◌}
use honker.Base.{
  ℕ, String, Bool, false, not, ◌&&◌, ◌||◌, Option, none, some, List, [], ◌∷◌, ◌++◌, map, ◌==◌, ltb,
  if◌then◌else◌,
}

unfoldable pub delete_where : (Row → Bool) → Action Jobs ℕ
delete_where p db = (ok (count_if p db.live), record db { live = reject p db.live })

unfoldable pub update_where : (Row → Bool) → (Row → Row) → Action Jobs ℕ
update_where p f db = (ok (count_if p db.live), record db { live = update p f db.live })

-- worker_id = ? AND claim_expires_at >= unixepoch()
unfoldable pub leased : ℕ → String → ℤ → Row → Bool
leased job worker now r =
    has_id job r && is_worker r.worker_id worker && holds_until r.claim_expires_at now

-- worker_id = ? AND attempts = ? AND state = 'processing'
unfoldable pub fenced : ℕ → String → ℕ → Row → Bool
fenced job worker attempt r =
    has_id job r && is_worker r.worker_id worker && r.attempts == attempt && is_processing r.state

unfoldable pub ack : ℕ → String → ℤ → Action Jobs ℕ
unfolding delete_where leased
ack job worker now = delete_where (leased job worker now)

unfoldable pub ack_fenced : ℕ → String → ℕ → Action Jobs ℕ
unfolding delete_where fenced
ack_fenced job worker attempt = delete_where (fenced job worker attempt)

-- An element of `ids_json`: an id, or an `[id, attempt]` pair.
pub data AckItem : Type 0 where
  plain : ℕ → AckItem
  token : ℕ → ℕ → AckItem

abbrev names_id : List AckItem → ℕ → Bool
names_id [] i = false
names_id (plain j ∷ items) i = i == j || names_id items i
names_id (token j a ∷ items) i = i == j || names_id items i

abbrev names_plain : List AckItem → ℕ → Bool
names_plain [] i = false
names_plain (plain j ∷ items) i = i == j || names_plain items i
names_plain (token j a ∷ items) i = names_plain items i

abbrev names_token : List AckItem → ℕ → ℕ → Bool
names_token [] i b = false
names_token (plain j ∷ items) i b = names_token items i b
names_token (token j a ∷ items) i b = i == j && b == a || names_token items i b

-- The WHERE clause of `ack_batch`.
unfoldable pub acked : List AckItem → String → ℤ → Row → Bool
acked items worker now r =
    names_id items r.id
    && is_worker r.worker_id worker
    && (holds_until r.claim_expires_at now && names_plain items r.id
        || is_processing r.state && names_token items r.id r.attempts)

unfoldable pub ack_batch : List AckItem → String → ℤ → Action Jobs ℕ
unfolding delete_where acked
ack_batch items worker now = delete_where (acked items worker now)

-- The guard that the statements of a retry share, without and with a token.
unfoldable pub retry_guard : ℕ → String → Option ℕ → ℤ → Row → Bool
retry_guard job worker none now r = leased job worker now r && is_processing r.state
retry_guard job worker (some attempt) now r = fenced job worker attempt r

-- SET of RETRY_PENDING_SQL
unfoldable pub set_retried : ℤ → ℤ → Row → Row
set_retried delay now r = record r {
  state = if ltb_ℤ (pos 0) delay then scheduled else pending;
  run_at = now +ℤ delay;
  worker_id = none;
  claim_expires_at = none;
  claimed_at = none;
}

-- A row on its way to `_honker_dead`.
pub record DeadRow : Type 0 where
  pub id : ℕ
  pub queue : String
  pub payload : String
  pub priority : ℤ
  pub run_at : ℤ
  pub max_attempts : ℤ
  pub attempts : ℕ
  pub created_at : ℤ

-- `DeadRow::from_row`: a column that holds no `i64` does not decode.
unfoldable pub from_row : Row → Result DeadRow
from_row r =
    if in_i64 r.priority
      && in_i64 r.run_at
      && in_i64 r.max_attempts
      && in_i64 (pos r.attempts)
      && in_i64 r.created_at
    then ok (record {
      id = r.id;
      queue = r.queue;
      payload = r.payload;
      priority = r.priority;
      run_at = r.run_at;
      max_attempts = r.max_attempts;
      attempts = r.attempts;
      created_at = r.created_at;
    })
    else err invalid_column

-- The row that the INSERT adds.
abbrev pub buried : String → ℤ → DeadRow → DeadJob
buried error died d = record {
  id = d.id;
  queue = d.queue;
  payload = d.payload;
  priority = d.priority;
  run_at = d.run_at;
  attempts = d.attempts;
  max_attempts = d.max_attempts;
  last_error = error;
  created_at = d.created_at;
  died_at = died;
}

-- `died` is the reading of the column's default `unixepoch()`.
unfoldable pub insert_dead : String → ℤ → DeadRow → Action Jobs Unit
insert_dead error died d db =
    if contains (map (λ e. e.id) db.dead) d.id
    then (err constraint, db)
    else (ok tt, record db { dead = db.dead ++ buried error died d ∷ [] })

abbrev pub decoded : Result DeadRow → Result (Option DeadRow)
decoded (ok d) = ok (some d)
decoded (err e) = err e

abbrev pub first_row : List Row → Result (Option DeadRow)
first_row [] = ok none
first_row (r ∷ rs) = decoded (from_row r)

-- DELETE ... RETURNING, of which the first row is read.
unfoldable pub delete_returning : (Row → Bool) → Action Jobs (Option DeadRow)
delete_returning p db = (first_row (select p db.live), record db { live = reject p db.live })

abbrev pub bury : String → ℤ → Option DeadRow → Action Jobs ℕ
bury error died none = pure 0
bury error died (some d) = do insert_dead error died d; pure 1

-- The rest of `retry_with`, when no row was put back: the read that chooses the path, and the dead
-- letter. `later` is read by the SELECT, `last` by the DELETE.
unfoldable pub retry_exhausted : ℕ → String → String → Option ℕ → ℤ → ℤ → ℤ → Action Jobs ℕ
unfolding delete_returning insert_dead
retry_exhausted job worker error attempt later last died db =
    (if ltb 0
          (count_if (λ r. retry_guard job worker attempt later r && not (has_attempts r)) db.live)
        then in_savepoint (do
          row ←
              delete_returning (λ r. retry_guard job worker attempt last r && not (has_attempts r))
          bury error died row)
        else pure 0)
      db

-- `now` is read by the UPDATE.
unfoldable pub retry_with : ℕ → String → ℤ → String → Option ℕ → ℤ → ℤ → ℤ → ℤ → Action Jobs ℕ
unfolding update_where
retry_with job worker delay error attempt now later last died = do
  updated ←
      update_where (λ r. retry_guard job worker attempt now r && has_attempts r)
        (set_retried delay now)
  if ltb 0 updated then pure 1 else retry_exhausted job worker error attempt later last died

unfoldable pub fail_guard : ℕ → String → Option ℕ → ℤ → Row → Bool
unfolding leased fenced
fail_guard job worker none now r = leased job worker now r
fail_guard job worker (some attempt) now r = fenced job worker attempt r

unfoldable pub fail_inner : ℕ → String → String → Option ℕ → ℤ → ℤ → Action Jobs ℕ
unfolding delete_returning insert_dead
fail_inner job worker error attempt now died = do
  row ← delete_returning (fail_guard job worker attempt now)
  bury error died row

unfoldable pub fail : ℕ → String → String → Option ℕ → ℤ → ℤ → Action Jobs ℕ
fail job worker error attempt now died = in_savepoint (fail_inner job worker error attempt now died)
