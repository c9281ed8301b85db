-- ===== src/Queue/Batch/Liveness.antt =====
-- `claim_batch` where a job is claimable (honker-core/src/honker_ops.rs).
use honker.Action.{ok}
use honker.Table.{order_by, select, contains, count_if}
use honker.Queue.Moves.{move_to_dead_lem}
use honker.Queue.Claim.{
  exhausted_ids, housekeeping_limit, id_in, claim_ids, promote, Claimed, or_zero, first_ids,
  expire_ids, claim_keys, claim_order, Key, key, claimed, claim_batch, move_to_dead,
}
use honker.Queue.Pick.{claim_ids-claimable, claim_keys-eq-first, is_claimable}
use honker.Queue.Batch.{prepared, taken}
use honker.Queue.Valid.{live-IsDistinct, IsValid, first_ids_sound}
use honker.Queue.Rows.{is_promoted, is_exhausted, Jobs, Row, is_expired, pending, has_id}
use honker.Queue.Batch.Progress.{claimed_table, claim_batch_succeeds, result}
use honker.Queue.Batch.Exclusive.{length-map}
use honker.Queue.Valid.Steps.{promote-Preserves, move_to_dead-Preserves}
use honker.Base.Int.{ℤ, in_i64, ◌+ℤ◌, pos}
use honker.Table.Counts.{
  length-select, count_if-select_and, count_if-reject_other, count_if-update_grows,
  count_if-order_by, count_if_imp, count_if-map,
}
use honker.Base.{
  ℕ, suc, ◌≤◌, ◌<◌, String, ◌≡◌, Bool, true, ◌&&◌, List, [], ◌∷◌, map, arith, length, take,
}

module _ (queue : String) (now : ℤ) where
  promote_keeps :
      (db : Jobs)
      → IsValid db
      → count_if (is_claimable queue now) db.live
        ≤ count_if (is_claimable queue now) (promote queue now housekeeping_limit db).1.live
  unfolding promote
  promote_keeps db v =
      count_if-update_grows (is_claimable queue now) (λ r. is_promoted queue now r ≡ true) _
        (λ r. record r { state = pending })
        (λ r h k. unfold is_claimable is_promoted in ground arith) db.live
        (first_ids_sound (is_promoted queue now) (λ r. r.run_at) housekeeping_limit db.live
          (live-IsDistinct db v))

  move_keeps :
      (p : Row → Bool) (deadline : Row → ℤ) (error : String)
      → ((r : Row) → p r ≡ true → is_claimable queue now r ≡ true → ⊥)
      → (db : Jobs) → IsValid db
      → count_if (is_claimable queue now) db.live
        ≤ count_if
            (is_claimable queue now)
            (move_to_dead (first_ids p deadline housekeeping_limit) now error db).1.live
  move_keeps p deadline error never db v = rw move_to_dead_lem (
      ground (
        arith,
        count_if-reject_other (is_claimable queue now) (λ r. p r ≡ true)
            (id_in (first_ids p deadline housekeeping_limit db.live)) never db.live
            (first_ids_sound p deadline housekeeping_limit db.live (live-IsDistinct db v)),
      ))

  -- The housekeeping of a claim takes away nothing that the claim may take.
  claimable_kept :
      (db : Jobs)
      → IsValid db
      → count_if (is_claimable queue now) db.live
        ≤ count_if (is_claimable queue now) (prepared queue now db).live
  unfolding prepared expire_ids exhausted_ids
  claimable_kept db v =
      let first = (promote queue now housekeeping_limit db).1 in
      let v₁ = (promote-Preserves queue now housekeeping_limit).at db v in
      let expire = expire_ids queue now housekeeping_limit in
      let v₂ = (move_to_dead-Preserves expire now "expired").at first v₁ in
      omega (
        arith,
        promote_keeps db v,
        move_keeps (is_expired queue now) (λ r. or_zero r.expires_at) "expired"
            (λ r h k. unfold is_expired is_claimable in ground arith) first v₁,
        move_keeps (is_exhausted queue now) (λ r. or_zero r.claim_expires_at)
            "max attempts exceeded" (λ r h k. unfold is_exhausted is_claimable in ground arith)
            (move_to_dead expire now "expired" first).1 v₂,
      )

first_key :
    (n : ℕ) (xs ys : List Key)
    → xs ≡ take (suc n) ys
    → 0 < count_if (λ k. true) ys
    → (k : Key) × (ks : List Key) × (xs ≡ k ∷ ks)
first_key n xs [] e h = absurd (omega arith)
first_key n xs (y ∷ ys) e h = (y, take n ys, e)

-- Where a row is claimable, a claim for one or more takes at least one.
some_taken :
    (queue : String) (n : ℕ) (now : ℤ) (live : List Row)
    → 0 < count_if (is_claimable queue now) live
    → 0 < count_if (id_in (claim_ids queue (pos (suc n)) now live)) live
some_taken queue n now live h =
    let rows = map key (select (is_claimable queue now) live) in
    let any : Key → Bool = λ k. true in
    let (k, ks, e) =
      first_key n (claim_keys queue (pos (suc n)) now live) (order_by claim_order rows)
        (claim_keys-eq-first queue (pos (suc n)) now live)
        (omega (
          arith,
          h,
          count_if-order_by any claim_order rows,
          count_if-map any key (select (is_claimable queue now) live),
          count_if-select_and (λ (r : Row). true) (is_claimable queue now) live,
          count_if_imp (is_claimable queue now) (λ r. true && is_claimable queue now r) (λ r j. j)
              live,
        )) in
    let ids = claim_ids queue (pos (suc n)) now live in
    let holds : contains ids k.id ≡ true = unfold claim_ids in rw e (ground arith) in
    omega (
      arith,
      claim_ids-claimable queue (pos (suc n)) now live k.id holds,
      count_if_imp (λ r. has_id k.id r && is_claimable queue now r) (id_in ids)
          (λ r j. ground (arith, holds)) live,
    )

-- If a valid database has a claimable job in the queue, a claim for one job or more succeeds and
-- hands out at least one. The end of the lease must be an `i64`.
pub claim_batch_progress :
    (queue worker : String) (n : ℕ) (timeout now : ℤ) (db : Jobs)
    → IsValid db
    → in_i64 (now +ℤ timeout) ≡ true
    → 0 < count_if (is_claimable queue now) db.live
    → (cs : List Claimed) × (db' : Jobs) × (claim_batch queue worker (pos (suc n)) timeout now db
        ≡ (ok cs, db'))
      × (0 < length cs)
unfolding taken
claim_batch_progress queue worker n timeout now db v h some_claimable =
    let live = (prepared queue now db).live in
    let ids = claim_ids queue (pos (suc n)) now live in
    (
      result queue worker (pos (suc n)) timeout now db v h,
      claimed_table queue worker (pos (suc n)) timeout now db v h,
      claim_batch_succeeds queue worker (pos (suc n)) timeout now db v h,
      omega (
        arith,
        length-map (claimed worker timeout now) (taken queue (pos (suc n)) now db),
        length-select (id_in ids) live,
        some_taken queue n now live (omega (arith, some_claimable, claimable_kept queue now db v)),
      ),
    )
