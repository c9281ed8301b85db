-- ===== src/Queue/Retry.antt =====
-- `retry_with` and `fail`, and the dead letter that they share (honker-core/src/honker_ops.rs).
pub mod Requeue
use honker.Action.{ok, Result, err, Action, settle, pure, in_savepoint}
use honker.Table.{count_if-select, reject, select, count_if, count_if-append, count_if-update}
use honker.Queue.Bury.{dead_letter, from_row_id}
use honker.Queue.Finish.{
  bury, from_row, buried, insert_dead, DeadRow, delete_returning, fail_guard, retry_guard,
  retry_exhausted, retry_with, fenced, leased, update_where, fail_inner, fail, set_retried,
}
use honker.Queue.Rows.{dead_has_id, Jobs, Row, has_id, tally, has_attempts}
use honker.Base.Int.{ℤ}
use honker.Base.{
  ℕ, ◌+◌, ◌≤◌, String, ◌≡◌, refl, ap, Bool, some, List, [], ◌∷◌, arith, if◌then◌else◌, ◌==◌, length,
  true, not, ◌&&◌, Option, none, false, ltb,
}
use honker.Queue.Valid.{live-IsDistinct, IsValid}
use honker.Table.Counts.{count_if_imp, update_none, length-select}

module _ (i : ℕ) (error : String) (died : ℤ) (p : Row → Bool) (db : Jobs) where
  tally-insert_dead_ok :
      (d : DeadRow) (k : ℕ)
      → (bury error died (some d) db).0 ≡ ok k
      → tally i (bury error died (some d) db).1 ≡ tally i db + (if d.id == i then 1 else 0)
  unfolding tally insert_dead
  tally-insert_dead_ok d k h =
      ground (arith, count_if-append (dead_has_id i) db.dead (buried error died d ∷ []))

module _ (i : ℕ) (error : String) (died : ℤ) (p : Row → Bool) (db : Jobs) (k : ℕ) where
  abbrev left : Jobs
  left = record db { live = reject p db.live }

  tally-one :
      (r : Row) (rs : List Row)
      → select p db.live ≡ r ∷ rs
      → length (select p db.live) ≤ 1
      → tally i left + (if r.id == i then 1 else 0) ≡ tally i db
  unfolding tally
  tally-one r [] e one =
      ground (arith, count_if-select (has_id i) p db.live, ap (count_if (has_id i)) e)
  tally-one r (s ∷ rs) e one = absurd (omega (arith, ap length e))

  tally-read_ok :
      (r : Row) (rs : List Row) (x : Result DeadRow)
      → select p db.live ≡ r ∷ rs
      → from_row r ≡ x
      → length (select p db.live) ≤ 1
      → (dead_letter p error died db).0 ≡ ok k
      → tally i (dead_letter p error died db).1 ≡ tally i db
  unfolding delete_returning
  tally-read_ok r rs (err x) e f one h = absurd (ground (arith, h, e, f))
  tally-read_ok r rs (ok d) e f one h =
      rw (e, f)
        (ground (
          arith,
          tally-one r rs e one,
          tally-insert_dead_ok i error died p left d k (rw (e, f) at h),
          from_row_id r d f,
        ))

  tally-selected_ok :
      (rows : List Row)
      → select p db.live ≡ rows
      → length (select p db.live) ≤ 1
      → (dead_letter p error died db).0 ≡ ok k
      → tally i (dead_letter p error died db).1 ≡ tally i db
  unfolding delete_returning tally
  tally-selected_ok [] e one h =
      rw e (omega (arith, count_if-select (has_id i) p db.live, ap (count_if (has_id i)) e))
  tally-selected_ok (r ∷ rs) e one h = tally-read_ok r rs (from_row r) e refl one h

guarded_id :
    (job : ℕ) (worker : String) (attempt : Option ℕ) (now : ℤ) (r : Row)
    → retry_guard job worker attempt now r ≡ true
    → has_id job r ≡ true
unfolding retry_guard leased fenced
guarded_id job worker none now r h = ground arith
guarded_id job worker (some a) now r h = ground arith

fail_guard_id :
    (job : ℕ) (worker : String) (attempt : Option ℕ) (now : ℤ) (r : Row)
    → fail_guard job worker attempt now r ≡ true
    → has_id job r ≡ true
unfolding fail_guard leased fenced
fail_guard_id job worker none now r h = ground arith
fail_guard_id job worker (some a) now r h = ground arith

module _ (i : ℕ) (db : Jobs) where
  settled_same :
      (r : Result ℕ) (db' : Jobs)
      → ((k : ℕ) → r ≡ ok k → tally i db' ≡ tally i db)
      → tally i (settle db r db').1 ≡ tally i db
  settled_same (ok k) db' h = h k refl
  settled_same (err e) db' h = refl

  savepoint_same :
      (body : Action Jobs ℕ)
      → ((k : ℕ) → (body db).0 ≡ ok k → tally i (body db).1 ≡ tally i db)
      → tally i (in_savepoint body db).1 ≡ tally i db
  unfolding in_savepoint
  savepoint_same body h = settled_same (body db).0 (body db).1 h

  -- A statement that is guarded by an id takes one row at most.
  one_selected :
      (job : ℕ) (p : Row → Bool)
      → IsValid db
      → ((r : Row) → p r ≡ true → has_id job r ≡ true)
      → length (select p db.live) ≤ 1
  one_selected job p v h = omega (
    arith,
    length-select p db.live,
    count_if_imp p (has_id job) h db.live,
    live-IsDistinct db v job,
  )

  dead_letter_same :
      (job : ℕ) (p : Row → Bool) (error : String) (died : ℤ)
      → IsValid db
      → ((r : Row) → p r ≡ true → has_id job r ≡ true)
      → tally i (in_savepoint (dead_letter p error died) db).1 ≡ tally i db
  dead_letter_same job p error died v h = savepoint_same (dead_letter p error died) λ k e.
      tally-selected_ok i error died p db k (select p db.live) refl (one_selected job p v h) e

  -- A `fail`, successful or not, neither loses a job of a valid database nor doubles one.
  pub fail_conserves :
      (job : ℕ) (worker error : String) (attempt : Option ℕ) (now died : ℤ)
      → IsValid db
      → tally i (fail job worker error attempt now died db).1 ≡ tally i db
  unfolding fail fail_inner
  fail_conserves job worker error attempt now died v =
      dead_letter_same job (fail_guard job worker attempt now) error died v
        (fail_guard_id job worker attempt now)

  branch_same :
      (b : Bool) (m n : Action Jobs ℕ) (s : Jobs)
      → (b ≡ true → tally i (m s).1 ≡ tally i db)
      → (b ≡ false → tally i (n s).1 ≡ tally i db)
      → tally i ((if b then m else n) s).1 ≡ tally i db
  branch_same true m n s h k = h refl
  branch_same false m n s h k = k refl

  exhausted_same :
      (job : ℕ) (worker error : String) (attempt : Option ℕ) (later last died : ℤ)
      → IsValid db
      → tally i (retry_exhausted job worker error attempt later last died db).1 ≡ tally i db
  unfolding retry_exhausted
  exhausted_same job worker error attempt later last died v =
      let p : Row → Bool = λ r. retry_guard job worker attempt last r && not (has_attempts r) in
      let spent : Row → Bool =
        λ r. retry_guard job worker attempt later r && not (has_attempts r) in
      branch_same (ltb 0 (count_if spent db.live)) (in_savepoint (dead_letter p error died))
        (pure 0) db
        (λ e.
          dead_letter_same job p error died v
            (λ r h. guarded_id job worker attempt last r (ground arith)))
        (λ e. refl)

  -- A retry, successful or not, neither loses a job of a valid database nor doubles one.
  pub retry_conserves :
      (job : ℕ) (worker : String) (delay : ℤ) (error : String) (attempt : Option ℕ)
      (now later last died : ℤ)
      → IsValid db
      → tally i (retry_with job worker delay error attempt now later last died db).1 ≡ tally i db
  unfolding retry_with update_where
  retry_conserves job worker delay error attempt now later last died v =
      let p : Row → Bool = λ r. retry_guard job worker attempt now r && has_attempts r in
      branch_same (ltb 0 (count_if p db.live)) (pure 1) _ _
        (λ e.
          unfold tally set_retried in
          omega (arith, count_if-update (has_id i) p (set_retried delay now) (λ r. refl) db.live))
        (λ e.
          rw (update_none p (set_retried delay now) db.live (ground arith))
            (exhausted_same job worker error attempt later last died v))

  -- A retry and a `fail`, successful or not, neither lose a job of a valid database nor double one.
  pub retries_and_fails_conserve :
      (job : ℕ) (worker : String) (delay : ℤ) (error : String) (attempt : Option ℕ)
      (now later last died : ℤ)
      → IsValid db
      → (tally i (retry_with job worker delay error attempt now later last died db).1 ≡ tally i db)
        × (tally i (fail job worker error attempt now died db).1 ≡ tally i db)
  retries_and_fails_conserve job worker delay error attempt now later last died v = (
    retry_conserves job worker delay error attempt now later last died v,
    fail_conserves job worker error attempt now died v,
  )
