-- ===== src/Queue/Valid/Calls.antt =====
-- The calls that end or keep up a claim, and the invariant (honker-core/src/honker_ops.rs).
use honker.Table.{count_if, All-reject, count_if-update, reject, All-update, count_if-append}
use honker.Queue.Bury.{tally-dead_letter-le, live-dead_letter, dead_letter}
use honker.Queue.Finish.{
  retry_exhausted, fail_inner, delete_where, retry_with, retry_guard, update_where, set_retried,
  fail, fail_guard, fenced,
}
use honker.Queue.Submit.{enqueue, new_row}
use honker.Queue.Valid.{IsValidRow, Preserves-Preorder, Preserves, IsValid, shrink-IsValid}
use honker.Queue.Rows.{Row, Jobs, has_id, has_attempts, is_processing, tally}
use honker.Base.Int.{ℤ, ltb_ℤ, i64_max, pos}
use honker.Action.Keeps.{Keeps-in_savepoint, Keeps, Keeps-pure, Keeps-if, Keeps-bind}
use honker.Table.Counts.{count_if-reject-le}
use honker.Base.{
  ℕ, ◌+◌, ◌≤◌, String, ◌≡◌, refl, inl, inr, Bool, true, false, not, ◌&&◌, Option, [], ◌∷◌, ◌++◌,
  arith, if◌then◌else◌, ◌==◌, ltb, Bool-cases, All-append,
}
use honker.Queue.Manage.{extend, heartbeat_fenced, heartbeat}

tally-reject :
    (i : ℕ) (p : Row → Bool) (db : Jobs)
    → tally i (record db { live = reject p db.live }) ≤ tally i db
unfolding tally
tally-reject i p db = omega (arith, count_if-reject-le (has_id i) p db.live)

pub delete_where-Preserves : (p : Row → Bool) → Keeps Preserves (delete_where p)
unfolding delete_where
delete_where-Preserves p = record {
  at = λ db v.
      shrink-IsValid db _ refl (λ i. tally-reject i p db) (All-reject IsValidRow p db.live v.rows)
        v;
}

pub update_where-Preserves :
    (p : Row → Bool) (f : Row → Row)
    → ((i : ℕ) (r : Row) → has_id i (f r) ≡ has_id i r)
    → ((r : Row) → p r ≡ true → IsValidRow r → IsValidRow (f r))
    → Keeps Preserves (update_where p f)
unfolding update_where tally
update_where-Preserves p f same keep = record {
  at = λ db v.
      shrink-IsValid db _ refl (λ i. omega (arith, count_if-update (has_id i) p f (same i) db.live))
        (All-update IsValidRow p f keep db.live v.rows) v;
}

dead_letter-Preserves :
    (p : Row → Bool) (error : String) (died : ℤ) → Keeps Preserves (dead_letter p error died)
dead_letter-Preserves p error died = record {
  at = λ db v.
      let (live, next) = live-dead_letter p error died db in
      shrink-IsValid db _ next (λ i. tally-dead_letter-le i error died p db)
        (rw live (All-reject IsValidRow p db.live v.rows)) v;
}

pub fail-Preserves :
    (job : ℕ) (worker error : String) (attempt : Option ℕ) (now died : ℤ)
    → Keeps Preserves (fail job worker error attempt now died)
unfolding fail fail_inner
fail-Preserves job worker error attempt now died =
    Keeps-in_savepoint Preserves-Preorder _
      (dead_letter-Preserves (fail_guard job worker attempt now) error died)

set_retried-IsValidRow :
    (delay now : ℤ) (r : Row)
    → has_attempts r ≡ true
    → IsValidRow r
    → IsValidRow (set_retried delay now r)
unfolding set_retried
set_retried-IsValidRow delay now r p v = ground arith

retry_exhausted-Preserves :
    (job : ℕ) (worker error : String) (attempt : Option ℕ) (later last died : ℤ)
    → Keeps Preserves (retry_exhausted job worker error attempt later last died)
unfolding retry_exhausted
retry_exhausted-Preserves job worker error attempt later last died = record {
  at = λ db.
      let o = Preserves-Preorder in
      let guard = retry_guard job worker attempt in
      (Keeps-if o (ltb 0 (count_if (λ r. guard later r && not (has_attempts r)) db.live)) _ _
          (Keeps-in_savepoint o _
            (dead_letter-Preserves (λ r. guard last r && not (has_attempts r)) error died))
          (Keeps-pure o 0)).at
        db;
}

pub retry_with-Preserves :
    (job : ℕ) (worker : String) (delay : ℤ) (error : String) (attempt : Option ℕ)
    (now later last died : ℤ)
    → Keeps Preserves (retry_with job worker delay error attempt now later last died)
unfolding retry_with set_retried
retry_with-Preserves job worker delay error attempt now later last died =
    let o = Preserves-Preorder in
    Keeps-bind o _ _
      (update_where-Preserves (λ r. retry_guard job worker attempt now r && has_attempts r)
        (set_retried delay now) (λ i r. refl)
        λ r p v. set_retried-IsValidRow delay now r (ground arith) v)
      λ updated.
        Keeps-if o (ltb 0 updated) _ _ (Keeps-pure o 1)
          (retry_exhausted-Preserves job worker error attempt later last died)

extend-Preserves :
    (p : Row → Bool) (extend_s now : ℤ)
    → ((r : Row) → p r ≡ true → is_processing r.state ≡ true)
    → Keeps Preserves (update_where p (extend extend_s now))
extend-Preserves p extend_s now f =
    update_where-Preserves p (extend extend_s now) (λ i r. refl) λ r e v. ground (arith, f r e)

pub heartbeat-Preserves :
    (job : ℕ) (worker : String) (extend_s now : ℤ)
    → Keeps Preserves (heartbeat job worker extend_s now)
unfolding heartbeat
heartbeat-Preserves job worker extend_s now = extend-Preserves _ extend_s now (λ r e. ground arith)

pub heartbeat_fenced-Preserves :
    (job : ℕ) (worker : String) (extend_s : ℤ) (attempt : ℕ) (now : ℤ)
    → Keeps Preserves (heartbeat_fenced job worker extend_s attempt now)
unfolding heartbeat_fenced fenced
heartbeat_fenced-Preserves job worker extend_s attempt now =
    extend-Preserves _ extend_s now (λ r e. ground arith)

set_enqueued-IsValidRow :
    (id : ℕ) (now created : ℤ) (queue payload : String) (run_at delay : Option ℤ)
    (priority max_attempts : ℤ) (expires : Option ℤ)
    → ltb_ℤ max_attempts (pos 1) ≡ false
    → IsValidRow (new_row id now created queue payload run_at delay priority max_attempts expires)
unfolding new_row
set_enqueued-IsValidRow id now created queue payload run_at delay priority max_attempts expires h =
    ground arith

module _ (now created : ℤ) (queue payload : String) (run_at delay : Option ℤ)
    (priority max_attempts : ℤ) (expires : Option ℤ) where
  abbrev row : Jobs → Row
  row db = new_row db.next_id now created queue payload run_at delay priority max_attempts expires

  tally-enqueued :
      (i : ℕ) (db : Jobs)
      → tally i (record db { live = db.live ++ row db ∷ []; next_id = db.next_id + 1 })
        ≡ tally i db + (if db.next_id == i then 1 else 0)
  unfolding tally new_row
  tally-enqueued i db = ground (arith, count_if-append (has_id i) db.live (row db ∷ []))

  enqueued-IsValid :
      (db : Jobs)
      → ltb_ℤ max_attempts (pos 1) ≡ false
      → IsValid db
      → IsValid (record db { live = db.live ++ row db ∷ []; next_id = db.next_id + 1 })
  enqueued-IsValid db h v = record {
    distinct = λ i. ground (arith, tally-enqueued i db, v.distinct i, v.fresh i);
    fresh = λ i l. ground (arith, tally-enqueued i db, v.fresh i);
    rows = All-append IsValidRow db.live (row db ∷ []) v.rows (
      set_enqueued-IsValidRow db.next_id now created queue payload run_at delay priority
          max_attempts expires h,
      tt,
    );
  }

  pub enqueue-Preserves :
      Keeps Preserves (enqueue now created queue payload run_at delay priority max_attempts expires)
  unfolding enqueue
  enqueue-Preserves = record {
    at = λ db v. elim (Bool-cases (ltb_ℤ max_attempts (pos 1))) [
      | inl bad ↦ rw bad v
      | inr fine ↦ elim (Bool-cases (ltb i64_max db.next_id)) [
        | inl used ↦ rw (fine, used) v
        | inr room ↦ rw (fine, room) (enqueued-IsValid db fine v)
      ]
    ];
  }
