-- ===== src/Queue/Claim.antt =====
-- `claim_batch`, `sweep_expired` and what they call (honker-core/src/honker_ops.rs).
-- `now` is the clock reading that the call binds into all of its statements.
use honker.Action.{
  raise, Action, Result, ok, in_savepoint, err, invalid_column, constraint, copied_not_deleted,
  pure, ◌>>◌, ◌>>=◌,
}
use honker.Table.{order_by, update, limit, select, contains, reject}
use honker.Queue.Rows.{
  DeadJob, Jobs, is_expired, is_lapsed, processing, is_due, is_promoted, pending, is_exhausted, Row,
}
use honker.Base.Int.{in_i64, negsuc, ◌+ℤ◌, ltb_ℤ, ℤ, pos}
use honker.Base.{
  ℕ, ◌+◌, String, Bool, true, false, ◌||◌, Option, none, some, List, [], ◌∷◌, ◌++◌, map,
  if◌then◌else◌, leb, ◌==◌, length,
}

-- CLAIM_HOUSEKEEPING_LIMIT
abbrev pub housekeeping_limit : ℤ
housekeeping_limit = pos 1000

-- ORDER BY a deadline, id
unfoldable pub by_deadline : (Row → ℤ) → Row → Row → Bool
by_deadline deadline r s =
    if ltb_ℤ (deadline r) (deadline s)
    then true
    else if ltb_ℤ (deadline s) (deadline r)
    then false
    else leb r.id s.id

abbrev pub or_zero : Option ℤ → ℤ
or_zero none = pos 0
or_zero (some t) = t

-- SELECT id ... WHERE p ORDER BY deadline, id LIMIT n
unfoldable pub first_ids : (Row → Bool) → (Row → ℤ) → ℤ → List Row → List ℕ
first_ids p deadline n live =
    map (λ r. r.id) (limit n (order_by (by_deadline deadline) (select p live)))

unfoldable pub expire_ids : String → ℤ → ℤ → List Row → List ℕ
expire_ids queue now = first_ids (is_expired queue now) (λ r. or_zero r.expires_at)

unfoldable pub exhausted_ids : String → ℤ → ℤ → List Row → List ℕ
exhausted_ids queue now = first_ids (is_exhausted queue now) (λ r. or_zero r.claim_expires_at)

abbrev pub id_in : List ℕ → Row → Bool
id_in ids r = contains ids r.id

-- PROMOTE_SQL
unfoldable pub promote : String → ℤ → ℤ → Action Jobs Unit
promote queue now n db =
    let ids = first_ids (is_promoted queue now) (λ r. r.run_at) n db.live in
    (ok tt, record db { live = update (id_in ids) (λ r. record r { state = pending }) db.live })

-- The row that INSERT INTO _honker_dead SELECT makes of a live row.
abbrev pub to_dead : ℤ → String → Row → DeadJob
to_dead now error r = record {
  id = r.id;
  queue = r.queue;
  payload = r.payload;
  priority = r.priority;
  run_at = r.run_at;
  attempts = r.attempts;
  max_attempts = r.max_attempts;
  last_error = error;
  created_at = r.created_at;
  died_at = now;
}

-- The primary key of `_honker_dead` refuses a row whose id is there.
abbrev pub conflicts : List DeadJob → List Row → Bool
conflicts dead [] = false
conflicts dead (r ∷ rs) = contains (map (λ d. d.id) dead) r.id || conflicts dead rs

unfoldable pub copy_to_dead : (List Row → List ℕ) → ℤ → String → Action Jobs ℕ
copy_to_dead ids now error db =
    let rows = select (id_in (ids db.live)) db.live in
    if conflicts db.dead rows
    then (err constraint, db)
    else (ok (length rows), record db { dead = db.dead ++ map (to_dead now error) rows })

unfoldable pub delete_ids : (List Row → List ℕ) → Action Jobs ℕ
delete_ids ids db =
    let chosen = id_in (ids db.live) in
    (ok (length (select chosen db.live)), record db { live = reject chosen db.live })

unfoldable pub move_to_dead : (List Row → List ℕ) → ℤ → String → Action Jobs ℕ
unfolding copy_to_dead delete_ids
move_to_dead ids now error = do
  copied ← copy_to_dead ids now error
  if copied == 0 then pure 0 else (do
    deleted ← delete_ids ids
    if deleted == copied then pure copied else raise copied_not_deleted)

-- What CLAIM_SQL orders: id, priority, run_at.
pub record Key : Type 0 where
  pub id : ℕ
  pub priority : ℤ
  pub run_at : ℤ

abbrev pub key : Row → Key
key r = record { id = r.id; priority = r.priority; run_at = r.run_at }

-- ORDER BY priority DESC, run_at, id
unfoldable pub claim_order : Key → Key → Bool
claim_order a b =
    if ltb_ℤ b.priority a.priority
    then true
    else if ltb_ℤ a.priority b.priority
    then false
    else if ltb_ℤ a.run_at b.run_at
    then true
    else if ltb_ℤ b.run_at a.run_at
    then false
    else leb a.id b.id

-- The two arms of CLAIM_SQL, the first cut to `n` rows on its own.
unfoldable pub claim_keys : String → ℤ → ℤ → List Row → List Key
claim_keys queue n now live =
    let due = limit n (order_by claim_order (map key (select (is_due queue now) live))) in
    limit n (order_by claim_order (due ++ map key (select (is_lapsed queue now) live)))

unfoldable pub claim_ids : String → ℤ → ℤ → List Row → List ℕ
claim_ids queue n now live = map (λ k. k.id) (claim_keys queue n now live)

-- SET of CLAIM_SQL
unfoldable pub set_claimed : String → ℤ → ℤ → Row → Row
set_claimed worker timeout now r = record r {
  state = processing;
  worker_id = some worker;
  claim_expires_at = some (now +ℤ timeout);
  claimed_at = some now;
  attempts = r.attempts + 1;
}

-- One object of the returned JSON array.
pub record Claimed : Type 0 where
  pub id : ℕ
  pub queue : String
  pub payload : String
  pub worker_id : String
  pub attempts : ℕ
  pub claim_expires_at : ℤ
  pub claimed_at : ℤ

-- RETURNING. The order of the returned rows is not specified; here it is that of the ids.
unfoldable pub claimed : String → ℤ → ℤ → Row → Claimed
claimed worker timeout now r = record {
  id = r.id;
  queue = r.queue;
  payload = r.payload;
  worker_id = worker;
  attempts = r.attempts + 1;
  claim_expires_at = now +ℤ timeout;
  claimed_at = now;
}

-- `row.get::<_, i64>`: a sum past `i64` is a REAL, which does not decode. (`attempts + 1` is at most
-- `max_attempts`, an `i64`.)
abbrev pub decodes : Claimed → Bool
decodes c = in_i64 c.claim_expires_at

unfoldable pub decode_all : List Claimed → Result (List Claimed)
decode_all [] = ok []
decode_all (c ∷ cs) = elim (decode_all cs) [
  | ok rest ↦ if decodes c then ok (c ∷ rest) else err invalid_column
  | err e ↦ err e
]

-- CLAIM_SQL and the loop over its rows.
unfoldable pub take_claims : String → String → ℤ → ℤ → ℤ → Action Jobs (List Claimed)
take_claims queue worker n timeout now db =
    let chosen = id_in (claim_ids queue n now db.live) in
    (
      decode_all (map (claimed worker timeout now) (select chosen db.live)),
      record db { live = update chosen (set_claimed worker timeout now) db.live },
    )

unfoldable pub claim_batch_inner : String → String → ℤ → ℤ → ℤ → Action Jobs (List Claimed)
claim_batch_inner queue worker n timeout now = do
  promote queue now housekeeping_limit
  move_to_dead (expire_ids queue now housekeeping_limit) now "expired"
  move_to_dead (exhausted_ids queue now housekeeping_limit) now "max attempts exceeded"
  take_claims queue worker n timeout now

unfoldable pub claim_batch : String → String → ℤ → ℤ → ℤ → Action Jobs (List Claimed)
claim_batch queue worker n timeout now = in_savepoint (claim_batch_inner queue worker n timeout now)

unfoldable pub sweep_expired : String → ℤ → Action Jobs ℕ
sweep_expired queue now =
    in_savepoint (move_to_dead (expire_ids queue now (negsuc 0)) now "expired")
