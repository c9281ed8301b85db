-- ===== src/Queue/Retry/Requeue.antt =====
-- `retry_fenced` by the worker that holds the job (honker-core/src/honker_ops.rs).
use text.Mathlib.TextPositions.{eq_refl}
use honker.Queue.Finish.{
  retry_with, retry_guard, set_retried, fenced, update_where, insert_dead, buried, DeadRow,
  delete_returning, bury, from_row, decoded, retry_exhausted,
}
use honker.Queue.Rows.{Jobs, Row, has_id, DeadJob, has_attempts, dead_has_id, tally}
use honker.Base.Int.{ℤ, eq_ℤ}
use honker.Action.{Result, ok}
use honker.Table.{count_if, count_if-append, reject, select, contains, All-select, count_if-select}
use honker.Base.{
  ℕ, ◌<◌, String, ◌≡◌, refl, Bool, true, not, ◌&&◌, some, List, [], ◌∷◌, arith, str_eq, ltb, lt→ltb,
  ap, inl, inr, map, Bool-cases, length, All, ◌∙◌, false, All-imp,
}
use honker.Queue.Bury.{from_row_id, dead_letter, live-dead_letter}
use honker.Table.Counts.{
  contains→count, length-select, count_if-select_and, update_none, count_if_disjoint, count_if_imp,
}
use honker.Queue.Valid.{IsValid}
use honker.Action.Outcome.{in_savepoint_after}

-- What a dead letter with this error looks like.
unfoldable pub is_buried : ℕ → String → ℤ → DeadJob → Bool
is_buried job error died d = dead_has_id job d && str_eq d.last_error error && eq_ℤ d.died_at died

module _ (job : ℕ) (worker : String) (delay : ℤ) (error : String) (attempt : ℕ)
    (now later last died : ℤ) (db : Jobs) where
  abbrev call : Result ℕ × Jobs
  call = retry_with job worker delay error (some attempt) now later last died db

  abbrev guard : Row → Bool
  guard r = fenced job worker attempt r

selected_hold : (p : Row → Bool) (xs : List Row) → All (λ r. p r ≡ true) (select p xs)
selected_hold p [] = tt
selected_hold p (x ∷ xs) = ground (arith, selected_hold p xs)

-- The row's columns decode.
abbrev pub Decodes : Row → Type 0
Decodes r = (d : DeadRow) × (from_row r ≡ ok d)

-- What the dead letter of a job leaves.
pub record IsDeadLetter (job : ℕ) (error : String) (died : ℤ) (x : Result ℕ × Jobs) : Type 0 where
  pub told : x.0 ≡ ok 1
  pub buried_once : 0 < count_if (is_buried job error died) x.1.dead

module _ (job : ℕ) (error : String) (died : ℤ) (p : Row → Bool) (db : Jobs)
    (free : count_if (dead_has_id job) db.dead ≡ 0) where
  buries_row :
      (d : DeadRow) (live : List Row)
      → d.id ≡ job
      → IsDeadLetter job error died (bury error died (some d) (record db { live = live }))
  unfolding insert_dead is_buried
  buries_row d live e = elim (Bool-cases (contains (map (λ (x : DeadJob). x.id) db.dead) d.id)) [
    | inl h ↦ absurd (
        omega (
          arith,
          contains→count (λ (x : DeadJob). x.id) d.id db.dead h,
          ap (λ i. count_if (dead_has_id i) db.dead) e,
          free,
        ))
    | inr h ↦ rw h (record {
      told = refl;
      buried_once = ground (
        arith,
        e,
        eq_refl error,
        count_if-append (is_buried job error died) db.dead (buried error died d ∷ []),
      );
    })
  ]

  buries_selected :
      (rows : List Row)
      → select p db.live ≡ rows
      → 0 < length rows
      → All (λ r. has_id job r ≡ true) rows
      → All Decodes rows
      → IsDeadLetter job error died (dead_letter p error died db)
  unfolding delete_returning
  buries_selected [] e some_row ids ds = absurd (omega (arith, some_row))
  buries_selected (r ∷ rs) e some_row ids ds =
      let (d, decoded) = ds.0 in
      rw (e, decoded)
        (buries_row d (reject p db.live) (ground (arith, ids.0, from_row_id r d decoded)))

module _ (job : ℕ) (worker : String) (delay : ℤ) (error : String) (attempt : ℕ)
    (now later last died : ℤ) (db : Jobs) where
  abbrev spent : Row → Bool
  spent r = fenced job worker attempt r && not (has_attempts r)

  spent_id : (r : Row) → spent r ≡ true → has_id job r ≡ true
  spent_id r h = unfold fenced in ground (arith, h)

  none_left :
      IsValid db
      → 0 < count_if spent db.live
      → (count_if (λ r. fenced job worker attempt r && has_attempts r) db.live ≡ 0)
        × (count_if (dead_has_id job) db.dead ≡ 0)
        × (count_if (has_id job) (reject spent db.live) ≡ 0)
  unfolding tally
  none_left v h = omega (
    arith,
    h,
    v.distinct job,
    count_if_disjoint spent (λ r. fenced job worker attempt r && has_attempts r) (has_id job)
        spent_id (λ r k. unfold fenced in ground (arith, k)) (λ r k l. ground (arith, k, l))
        db.live,
    count_if_imp spent (λ r. has_id job r && spent r) (λ r k. ground (arith, k, spent_id r k))
        db.live,
    count_if-select_and (has_id job) spent db.live,
    count_if-select (has_id job) spent db.live,
  )

  goes_on :
      count_if (λ r. fenced job worker attempt r && has_attempts r) db.live ≡ 0
      → retry_with job worker delay error (some attempt) now later last died db
        ≡ retry_exhausted job worker error (some attempt) later last died db
  unfolding retry_with update_where retry_guard
  goes_on z =
      let p : Row → Bool = λ r. fenced job worker attempt r && has_attempts r in
      let zero_rows : ltb 0 (count_if p db.live) ≡ false = ground (arith, z) in
      rw (zero_rows, update_none p (set_retried delay now) db.live z) refl

  exhausts :
      0 < count_if spent db.live
      → (dead_letter spent error died db).0 ≡ ok 1
      → retry_exhausted job worker error (some attempt) later last died db
        ≡ (ok 1, (dead_letter spent error died db).1)
  unfolding retry_exhausted retry_guard
  exhausts h told =
      rw (lt→ltb 0 (count_if spent db.live) h)
        (in_savepoint_after (dead_letter spent error died) db 1 told)

  -- In a valid database whose columns decode, a retry with the current token and no attempt left
  -- returns 1, takes the job out of the live table and puts it into the dead one with the given error.
  pub retry_buries :
      IsValid db
      → All Decodes db.live
      → 0 < count_if (λ r. fenced job worker attempt r && not (has_attempts r)) db.live
      → IsDeadLetter job error died
          (retry_with job worker delay error (some attempt) now later last died db)
        × (count_if
              (has_id job)
              (retry_with job worker delay error (some attempt) now later last died db).1.live
            ≡ 0)
  retry_buries v ds h =
      let (z, free, gone) = none_left v h in
      let letter : IsDeadLetter job error died (dead_letter spent error died db) =
        buries_selected job error died spent db free (select spent db.live) refl
          (omega (arith, h, length-select spent db.live))
          (All-imp _ _ spent_id (select spent db.live) (selected_hold spent db.live))
          (All-select Decodes spent db.live ds) in
      rw (goes_on z ∙ exhausts h letter.told) (
        record { told = refl; buried_once = letter.buried_once },
        rw ((live-dead_letter spent error died db).0) gone,
      )
