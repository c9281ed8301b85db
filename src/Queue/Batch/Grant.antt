-- ===== src/Queue/Batch/Grant.antt =====
-- The jobs that `claim_batch` hands out, seen from the table that it found
-- (honker-core/src/honker_ops.rs).
use text.Mathlib.TextPositions.{eq_refl}
use honker.Action.{ok}
use honker.Table.{count_if}
use honker.Queue.Moves.{move_to_dead_lem}
use honker.Queue.Claim.{
  Claimed, expire_ids, claim_batch, id_in, exhausted_ids, promote, move_to_dead, claimed,
  housekeeping_limit, claim_ids,
}
use honker.Queue.Pick.{claim_takes_claimable, is_claimable}
use honker.Queue.Batch.{prepared, taken, prepared-IsValid, claims-eq-taken}
use honker.Queue.Valid.{live-IsDistinct, IsValid, first_ids_sound}
use honker.Queue.Rows.{
  is_processing, has_attempts, Jobs, Row, is_promoted, is_scheduled, before, is_pending, pending,
  unexpired,
}
use honker.Base.Int.{◌+ℤ◌, ℤ, leb_ℤ}
use honker.Table.Counts.{
  count_if-reject-le, All-map, count_if-update_selected, count_if_imp, selected_count,
}
use honker.Base.{
  ℕ, ◌+◌, ◌≤◌, ◌<◌, String, ◌≡◌, Bool, true, ◌&&◌, ◌||◌, List, arith, str_eq, ◌==◌, All, refl,
  eq_iff, All-imp, All-zip,
}

-- A job that a claim may hand out now: of the queue, with an attempt left, not expired, and either
-- waiting with its time come, or under a lease that has lapsed.
unfoldable pub is_eligible : String → ℤ → Row → Bool
is_eligible queue now r =
    str_eq r.queue queue
    && has_attempts r
    && unexpired r.expires_at now
    && ((is_pending r.state || is_scheduled r.state) && leb_ℤ r.run_at now
        || is_processing r.state && before r.claim_expires_at now)

-- The row is the job that `c` hands out, before its attempt.
unfoldable pub backs : Claimed → Row → Bool
backs c r = r.id == c.id && r.attempts + 1 == c.attempts && str_eq r.payload c.payload

-- The row is that job, and eligible.
unfoldable pub backed : String → ℤ → Claimed → Row → Bool
backed queue now c r = backs c r && is_eligible queue now r

module _ (queue : String) (now : ℤ) (c : Claimed) where
  promoted_backed :
      (r : Row)
      → is_promoted queue now r ≡ true
      → backed queue now c (record r { state = pending }) ≡ backed queue now c r
  unfolding backed backs is_eligible is_promoted
  promoted_backed r h = ground arith

  backed-promote :
      (db : Jobs)
      → IsValid db
      → count_if (backed queue now c) (promote queue now housekeeping_limit db).1.live
        ≡ count_if (backed queue now c) db.live
  unfolding promote
  backed-promote db v =
      count_if-update_selected (backed queue now c) (λ r. is_promoted queue now r ≡ true) _
        (λ r. record r { state = pending }) promoted_backed db.live
        (first_ids_sound (is_promoted queue now) (λ r. r.run_at) housekeeping_limit db.live
          (live-IsDistinct db v))

  backed-move_to_dead :
      (ids : List Row → List ℕ) (error : String) (db : Jobs)
      → count_if (backed queue now c) (move_to_dead ids now error db).1.live
        ≤ count_if (backed queue now c) db.live
  backed-move_to_dead ids error db =
      rw move_to_dead_lem
        (ground (arith, count_if-reject-le (backed queue now c) (id_in (ids db.live)) db.live))

  backed-prepared :
      (db : Jobs)
      → IsValid db
      → count_if (backed queue now c) (prepared queue now db).live
        ≤ count_if (backed queue now c) db.live
  unfolding prepared
  backed-prepared db v = omega (
    arith,
    backed-promote db v,
    backed-move_to_dead (expire_ids queue now housekeeping_limit) "expired"
        (promote queue now housekeeping_limit db).1,
    backed-move_to_dead (exhausted_ids queue now housekeeping_limit) "max attempts exceeded"
        (move_to_dead (expire_ids queue now housekeeping_limit) now "expired"
          (promote queue now housekeeping_limit db).1).1,
  )

-- Two rows that are the same job at the same attempt.
abbrev alike : Row → Row → Bool
alike r s = s.id == r.id && s.attempts == r.attempts && str_eq s.payload r.payload

alike_self : (r : Row) → alike r r ≡ true
alike_self r = ground (arith, eq_refl r.payload)

-- What a claim promises of a job that it hands out.
pub record IsGranted (queue worker : String) (timeout now : ℤ) (db : Jobs) (c : Claimed)
    : Type 0 where
  pub eligible : 0 < count_if (backed queue now c) db.live
  pub of_queue : c.queue ≡ queue
  pub of_worker : c.worker_id ≡ worker
  pub lease : c.claim_expires_at ≡ now +ℤ timeout
  pub started : c.claimed_at ≡ now

module _ (queue worker : String) (n timeout now : ℤ) (db : Jobs) (v : IsValid db) where
  taken_claimable : All (λ r. is_claimable queue now r ≡ true) (taken queue n now db)
  unfolding taken
  taken_claimable =
      claim_takes_claimable queue n now (prepared queue now db).live
        (live-IsDistinct (prepared queue now db) (prepared-IsValid queue now db v))

  taken_counted :
      All
        (λ r.
          0 < count_if (λ s. alike r s && is_claimable queue now s) (prepared queue now db).live)
        (taken queue n now db)
  unfolding taken
  taken_counted =
      selected_count alike (is_claimable queue now)
        (id_in (claim_ids queue n now (prepared queue now db).live)) alike_self
        (prepared queue now db).live taken_claimable

  claimable_eligible :
      (r s : Row)
      → (alike r s && is_claimable queue now s) ≡ true
      → backed queue now (claimed worker timeout now r) s ≡ true
  unfolding backed backs claimed is_claimable is_eligible
  claimable_eligible r s h = ground arith

  claimable_queue : (r : Row) → is_claimable queue now r ≡ true → r.queue ≡ queue
  unfolding is_claimable
  claimable_queue r h = ground (arith, eq_iff r.queue queue)

  grant_taken :
      (r : Row)
      → (is_claimable queue now r ≡ true)
        × (0 < count_if (λ s. alike r s && is_claimable queue now s) (prepared queue now db).live)
      → IsGranted queue worker timeout now db (claimed worker timeout now r)
  unfolding claimed
  grant_taken r h = record {
    eligible = omega (
      arith,
      h.1,
      count_if_imp (λ s. alike r s && is_claimable queue now s)
          (backed queue now (claimed worker timeout now r)) (claimable_eligible r)
          (prepared queue now db).live,
      backed-prepared queue now (claimed worker timeout now r) db v,
    );
    of_queue = claimable_queue r h.0;
    of_worker = refl;
    lease = refl;
    started = refl;
  }

  -- Every job that a successful claim on a valid database hands out was eligible in the table that
  -- the claim found, and is handed out for one more attempt, to this worker, from now and until the
  -- timeout.
  pub claim_batch_grants :
      (cs : List Claimed) (db' : Jobs)
      → claim_batch queue worker n timeout now db ≡ (ok cs, db')
      → All (IsGranted queue worker timeout now db) cs
  claim_batch_grants cs db' done = rw (claims-eq-taken queue worker n timeout now db cs db' done) (
      All-map (IsGranted queue worker timeout now db) (claimed worker timeout now)
        (taken queue n now db)
        (All-imp _ _ grant_taken (taken queue n now db)
          (All-zip _ _ (taken queue n now db) taken_claimable taken_counted)))
