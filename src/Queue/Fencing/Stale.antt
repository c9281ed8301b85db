-- ===== src/Queue/Fencing/Stale.antt =====
-- The fenced calls with a token that is spent (honker-core/src/honker_ops.rs).
use honker.Action.{ok, in_savepoint}
use honker.Table.{reject, count_if, select}
use honker.Queue.Bury.{dead_letter}
use honker.Queue.Finish.{
  retry_guard, ack_fenced, fenced, retry_with, set_retried, token, fail_inner, retry_exhausted,
  acked, update_where, delete_returning, fail_guard, delete_where, ack_batch, fail,
}
use honker.Queue.Manage.{heartbeat_fenced, extend}
use honker.Queue.Fencing.{outdated, IsSpent}
use honker.Queue.Rows.{Jobs, Row, has_attempts}
use honker.Base.Int.{ℤ}
use honker.Table.Counts.{update_none, select_none, count_if_imp, reject_none}
use honker.Base.{ℕ, String, ◌≡◌, Bool, true, not, ◌&&◌, some, [], ◌∷◌, arith}

-- No fenced call for the job with this token changes anything, whoever makes it and whenever.
pub record Misses (job attempt : ℕ) (db : Jobs) : Type 0 where
  pub acks : (worker : String) → ack_fenced job worker attempt db ≡ (ok 0, db)
  pub acks_batch :
      (worker : String) (now : ℤ) → ack_batch (token job attempt ∷ []) worker now db ≡ (ok 0, db)
  pub retries :
      (worker : String) (delay : ℤ) (error : String) (now later last died : ℤ)
      → retry_with job worker delay error (some attempt) now later last died db ≡ (ok 0, db)
  pub fails :
      (worker error : String) (now died : ℤ)
      → fail job worker error (some attempt) now died db ≡ (ok 0, db)
  pub heartbeats :
      (worker : String) (extend_s now : ℤ)
      → heartbeat_fenced job worker extend_s attempt now db ≡ (ok 0, db)

module _ (job attempt : ℕ) (db : Jobs) (spent : IsSpent job attempt db) where
  no_rows :
      (p : Row → Bool)
      → ((r : Row) → p r ≡ true → outdated job attempt r ≡ true)
      → count_if p db.live ≡ 0
  no_rows p f = omega (arith, count_if_imp p (outdated job attempt) f db.live, spent.none_left)

  fenced_none : (worker : String) → count_if (fenced job worker attempt) db.live ≡ 0
  unfolding fenced outdated
  fenced_none worker = no_rows (fenced job worker attempt) (λ r h. ground arith)

  fenced_nothing :
      (worker : String) (p : Row → Bool)
      → ((r : Row) → p r ≡ true → fenced job worker attempt r ≡ true)
      → (count_if p db.live ≡ 0) × (reject p db.live ≡ db.live) × (select p db.live ≡ [])
  fenced_nothing worker p f =
      let z : count_if p db.live ≡ 0 =
        omega (arith, count_if_imp p (fenced job worker attempt) f db.live, fenced_none worker) in
      (z, reject_none p db.live z, select_none p db.live z)

  delete_nothing :
      (p : Row → Bool)
      → (count_if p db.live ≡ 0) × (reject p db.live ≡ db.live) × (select p db.live ≡ [])
      → delete_where p db ≡ (ok 0, db)
  unfolding delete_where
  delete_nothing p (z, r, s) = rw (z, r)

  update_nothing :
      (p : Row → Bool) (f : Row → Row) → count_if p db.live ≡ 0 → update_where p f db ≡ (ok 0, db)
  unfolding update_where
  update_nothing p f z = rw (z, update_none p f db.live z)

  bury_nothing :
      (p : Row → Bool) (error : String) (died : ℤ)
      → (count_if p db.live ≡ 0) × (reject p db.live ≡ db.live) × (select p db.live ≡ [])
      → dead_letter p error died db ≡ (ok 0, db)
  unfolding delete_returning
  bury_nothing p error died (z, r, s) = rw (s, r)

  retry_nothing :
      (worker : String) (delay : ℤ) (error : String) (now later last died : ℤ)
      → retry_with job worker delay error (some attempt) now later last died db ≡ (ok 0, db)
  unfolding retry_with retry_exhausted retry_guard update_where
  retry_nothing worker delay error now later last died =
      let p : Row → Bool = λ r. fenced job worker attempt r && has_attempts r in
      let q : Row → Bool = λ r. fenced job worker attempt r && not (has_attempts r) in
      let (z, _, _) = fenced_nothing worker p (λ r h. ground arith) in
      let (y, _, _) = fenced_nothing worker q (λ r h. ground arith) in
      rw (z, update_none p (set_retried delay now) db.live z, y)

  batch_nothing :
      (worker : String) (now : ℤ) → ack_batch (token job attempt ∷ []) worker now db ≡ (ok 0, db)
  unfolding ack_batch
  batch_nothing worker now =
      let p : Row → Bool = acked (token job attempt ∷ []) worker now in
      delete_nothing p (fenced_nothing worker p (λ r h. unfold fenced acked in ground arith))

  -- Every fenced call with a spent token returns 0 and changes nothing.
  pub IsSpent-Misses : Misses job attempt db
  unfolding ack_fenced fail fail_inner fail_guard heartbeat_fenced in_savepoint
  IsSpent-Misses = record {
    acks =
        λ worker. delete_nothing (fenced job worker attempt) (fenced_nothing worker _ (λ r h. h));
    acks_batch = batch_nothing;
    retries = retry_nothing;
    fails = λ worker error now died.
        rw (
          bury_nothing (fenced job worker attempt) error died (fenced_nothing worker _ (λ r h. h)));
    heartbeats = λ worker extend_s now.
        update_nothing (fenced job worker attempt) (extend extend_s now) (fenced_none worker);
  }
