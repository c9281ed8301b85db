-- ===== src/Queue/Batch/Exclusive.antt =====
-- `claim_batch` and the rows that it marks as claimed (honker-core/src/honker_ops.rs).
use text.Mathlib.TextPositions.{eq_refl}
use honker.Action.{ok, Result}
use honker.Table.{count_if, select}
use honker.Queue.Claim.{
  Key, claim_keys, id_in, claimed, Claimed, claim_ids, claim_batch, set_claimed,
}
use honker.Queue.Pick.{IsDistinct}
use honker.Queue.Batch.{claims-eq-taken, prepared, prepared-IsValid, taken, live_after_claim}
use honker.Queue.Valid.{live-IsDistinct, IsValid}
use honker.Queue.Rows.{is_processing, Jobs, has_id, holds_until, Row, is_worker}
use honker.Base.Int.{ℤ, pos, ◌+ℤ◌, ◌≤ℤ◌}
use honker.Table.Counts.{length-select, updated_count, count_if_disjoint, All-map}
use honker.Base.{
  ℕ, suc, ◌+◌, ◌≤◌, String, ◌≡◌, refl, ap, Bool, ◌&&◌, List, [], ◌∷◌, map, arith, length-take-le,
  length, ◌<◌, subst, ◌≢◌, true, ◌==◌, All-zip, All-imp, All,
}
use honker.Queue.Batch.Grant.{backs, claim_batch_grants, backed, is_eligible}
use honker.Queue.Valid.Steps.{claim_batch-Preserves}

count_if-id_in :
    (j : ℕ) (js : List ℕ) (xs : List Row)
    → count_if (id_in (j ∷ js)) xs ≤ count_if (has_id j) xs + count_if (id_in js) xs
count_if-id_in j js [] = omega arith
count_if-id_in j js (x ∷ xs) = ground (arith, count_if-id_in j js xs)

-- A list of ids names at most as many rows.
rows_of_ids :
    (ids : List ℕ) (live : List Row) → IsDistinct live → count_if (id_in ids) live ≤ length ids
rows_of_ids [] live d = no_ids live
  where
    no_ids : (xs : List Row) → count_if (id_in []) xs ≤ 0
    no_ids [] = omega arith
    no_ids (x ∷ xs) = omega (arith, no_ids xs)
rows_of_ids (j ∷ js) live d = omega (arith, count_if-id_in j js live, d j, rows_of_ids js live d)

module _ {ℓ κ} {A : Type ℓ} {B : Type κ} where
  pub length-map : (f : A → B) (xs : List A) → length (map f xs) ≡ length xs
  length-map f [] = refl
  length-map f (x ∷ xs) = ap suc (length-map f xs)

length-claim_ids :
    (queue : String) (n : ℕ) (now : ℤ) (live : List Row)
    → length (claim_ids queue (pos n) now live) ≤ n
unfolding claim_ids claim_keys
length-claim_ids queue n now live = omega (
  arith,
  length-map (λ (k : Key). k.id) (claim_keys queue (pos n) now live),
  length-take-le {0} n,
)

-- On a valid database, a claim for `n` jobs that succeeds hands out at most `n`.
pub claim_batch_at_most :
    (queue worker : String) (n : ℕ) (timeout now : ℤ) (db : Jobs) (cs : List Claimed) (db' : Jobs)
    → IsValid db
    → claim_batch queue worker (pos n) timeout now db ≡ (ok cs, db')
    → length cs ≤ n
unfolding taken
claim_batch_at_most queue worker n timeout now db cs db' v done =
    let live = (prepared queue now db).live in
    let ids = claim_ids queue (pos n) now live in
    omega (
      arith,
      ap length (claims-eq-taken queue worker (pos n) timeout now db cs db' done),
      length-map (claimed worker timeout now) (taken queue (pos n) now db),
      length-select (id_in ids) live,
      rows_of_ids ids live
          (live-IsDistinct (prepared queue now db) (prepared-IsValid queue now db v)),
      length-claim_ids queue n now live,
    )

-- The row is the job that `c` hands out, at that attempt, under that worker and that lease.
unfoldable pub is_claim_of : Claimed → Row → Bool
is_claim_of c r =
    r.id == c.id
    && is_worker r.worker_id c.worker_id
    && r.attempts == c.attempts
    && is_processing r.state
    && holds_until r.claim_expires_at c.claim_expires_at

claim_of_taken :
    (worker : String) (timeout now : ℤ) (r : Row)
    → is_claim_of (claimed worker timeout now r) (set_claimed worker timeout now r) ≡ true
unfolding is_claim_of claimed set_claimed
claim_of_taken worker timeout now r = ground (arith, eq_refl worker)

-- Each job that a claim hands out stands in the table as that claim.
pub claim_batch_recorded :
    (queue worker : String) (n timeout now : ℤ) (db : Jobs) (cs : List Claimed) (db' : Jobs)
    → claim_batch queue worker n timeout now db ≡ (ok cs, db')
    → All (λ c. 0 < count_if (is_claim_of c) db'.live) cs
unfolding taken
claim_batch_recorded queue worker n timeout now db cs db' done =
    let live = (prepared queue now db).live in
    let chosen = id_in (claim_ids queue n now live) in
    rw
      (
        claims-eq-taken queue worker n timeout now db cs db' done,
        live_after_claim queue worker n timeout now db cs db' done,
      )
      (All-map _ (claimed worker timeout now) (select chosen live) (
        updated_count (λ r. is_claim_of (claimed worker timeout now r)) chosen
          (set_claimed worker timeout now) (claim_of_taken worker timeout now) live))

-- A job that is claimed until `c.claim_expires_at` is not eligible until then.
claim_excludes :
    (queue : String) (now : ℤ) (c d : Claimed) (live : List Row)
    → IsDistinct live
    → now ≤ℤ c.claim_expires_at
    → 0 < count_if (is_claim_of c) live
    → 0 < count_if (backed queue now d) live
    → c.id ≢ d.id
unfolding is_claim_of backed backs is_eligible
claim_excludes queue now c d live distinct early mine theirs same = omega (
  arith,
  distinct c.id,
  count_if_disjoint (is_claim_of c) (backed queue now d) (has_id c.id) (λ r h. ground arith)
      (λ r h. ground arith) (λ r h k. ground arith) live,
)

-- Where two claims on a valid database follow one another, the second, by any worker and in any
-- queue, hands out no job of the first, if it is made while the lease of the first holds.
pub claims_exclusive :
    (queue queue' worker worker' : String) (n n' timeout timeout' now now' : ℤ) (db db' db'' : Jobs)
    (cs ds : List Claimed)
    → IsValid db
    → now' ≤ℤ now +ℤ timeout
    → claim_batch queue worker n timeout now db ≡ (ok cs, db')
    → claim_batch queue' worker' n' timeout' now' db' ≡ (ok ds, db'')
    → All (λ c. All (λ d. c.id ≢ d.id) ds) cs
claims_exclusive queue queue' worker worker' n n' timeout timeout' now now' db db' db'' cs ds v
      early p q =
    All-imp _ _
      (λ c h.
        All-imp _ _
          (λ d g.
            claim_excludes queue' now' c d db'.live (live-IsDistinct db' v') (rw (h.1.lease) early)
              h.0 g.eligible)
          ds (claim_batch_grants queue' worker' n' timeout' now' db' v' ds db'' q))
      cs
      (All-zip _ _ cs (claim_batch_recorded queue worker n timeout now db cs db' p)
        (claim_batch_grants queue worker n timeout now db v cs db' p))
  where
    v' : IsValid db'
    v' =
        subst IsValid (ap (λ (x : Result (List Claimed) × Jobs). x.1) p)
          ((claim_batch-Preserves queue worker n timeout now).at db v)
