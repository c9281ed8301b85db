-- ===== src/Queue/Deadline/Wait.antt =====
-- What a worker may conclude from the time that `queue_next_claim_at` reports
-- (honker-core/src/honker_ops.rs).
use honker.Table.{select, count_if}
use honker.Queue.Deadline.{
  least, is_leased, is_waiting, lease_end, queue_next_claim_at, next_lapse, next_scheduled,
  earliest,
}
use honker.Queue.Rows.{is_due, Row, is_lapsed, is_pending, Jobs}
use honker.Queue.Batch.Grant.{is_eligible, IsGranted, claim_batch_grants, backed}
use honker.Base.Int.{◌≤ℤ◌, leb_ℤ, ℤ, ◌<ℤ◌, ltb_ℤ, +ℤ_parts, pos}
use honker.Base.{
  ◌+◌, ◌≤◌, String, ◌≡◌, refl, Bool, true, ◌&&◌, ◌||◌, Option, none, some, List, [], ◌∷◌, map,
  arith, ◌⊎◌, inl, inr, All,
}
use honker.Action.{ok}
use honker.Queue.Claim.{or_zero, claim_batch, Claimed}
use honker.Table.Counts.{count_if_imp}
use honker.Queue.Valid.{IsValid}

-- The value, if there is one, is not reached at `u`.
abbrev pub Later : ℤ → Option ℤ → Type 0
Later u none = Unit
Later u (some m) = u <ℤ m

pub least-Later {ℓ} :
    {A : Type ℓ} (p : A → Bool) (f : A → ℤ) (u : ℤ) (xs : List A)
    → Later u (least (map f (select p xs)))
    → count_if (λ r. p r && leb_ℤ (f r) u) xs ≡ 0
unfolding least
least-Later p f u [] h = refl
least-Later p f u (x ∷ xs) h = ground (arith, least-Later p f u xs)

count_if_or {ℓ} :
    {A : Type ℓ} (a b : A → Bool) (xs : List A)
    → count_if (λ x. a x || b x) xs ≤ count_if a xs + count_if b xs
count_if_or a b [] = omega arith
count_if_or a b (x ∷ xs) = ground (arith, count_if_or a b xs)

-- A pending row whose time has not come: a row that only an older build or raw SQL writes.
unfoldable pub is_early : ℤ → Row → Bool
is_early now r = is_pending r.state && ltb_ℤ now r.run_at

module _ (queue : String) (now u : ℤ) where
  abbrev now_due : Row → Bool
  now_due r = is_due queue now r || is_lapsed queue now r || is_early now r

  abbrev due_by : Row → Bool
  due_by r =
      is_waiting queue now r && leb_ℤ r.run_at u || is_leased queue now r && leb_ℤ (lease_end r) u

  eligible_later :
      now ≤ℤ u → (r : Row) → is_eligible queue u r ≡ true → (now_due r || due_by r) ≡ true
  unfolding is_eligible is_due is_lapsed is_early is_waiting is_leased lease_end
  eligible_later h r e = ground (arith, +ℤ_parts (or_zero r.claim_expires_at) (pos 1))

  -- Nothing that is eligible at `u` is missing from the report.
  none_eligible :
      (live : List Row)
      → now ≤ℤ u
      → count_if (is_due queue now) live ≡ 0
      → count_if (is_lapsed queue now) live ≡ 0
      → count_if (is_early now) live ≡ 0
      → Later u (least (map (λ r. r.run_at) (select (is_waiting queue now) live)))
      → Later u (least (map lease_end (select (is_leased queue now) live)))
      → count_if (is_eligible queue u) live ≡ 0
  none_eligible live h no_due no_lapsed no_early s l = omega (
    arith,
    count_if_imp (is_eligible queue u) (λ r. now_due r || due_by r) (eligible_later h) live,
    count_if_or now_due due_by live,
    count_if_or (λ r. is_due queue now r || is_lapsed queue now r) (is_early now) live,
    count_if_or (is_due queue now) (is_lapsed queue now) live,
    count_if_or (λ r. is_waiting queue now r && leb_ℤ r.run_at u)
        (λ r. is_leased queue now r && leb_ℤ (lease_end r) u) live,
    least-Later (is_waiting queue now) (λ r. r.run_at) u live s,
    least-Later (is_leased queue now) lease_end u live l,
  )

  earliest-Later :
      (a b : Option ℤ)
      → pos 0 <ℤ now
      → now ≤ℤ u
      → (earliest now a b ≡ pos 0) ⊎ (u <ℤ earliest now a b)
      → Later u a × Later u b
  unfolding earliest
  earliest-Later none none p h e = (tt, tt)
  earliest-Later none (some b) p h e = (tt, ground arith)
  earliest-Later (some a) none p h e = (ground arith, tt)
  earliest-Later (some a) (some b) p h e = ground arith

  report_says :
      (db : Jobs) (t : ℤ)
      → pos 0 <ℤ now
      → now ≤ℤ u
      → queue_next_claim_at queue now db ≡ ok t
      → (t ≡ pos 0) ⊎ (u <ℤ t)
      → (count_if (is_due queue now) db.live ≡ 0)
        × ((earliest now (next_scheduled queue now db) (next_lapse queue now db) ≡ pos 0)
            ⊎ (u <ℤ earliest now (next_scheduled queue now db) (next_lapse queue now db)))
  unfolding queue_next_claim_at
  report_says db t p h report (inl z) = ground arith
  report_says db t p h report (inr l) = ground arith

  -- Until the reported time comes (for ever, where 0 is reported) no job of the queue becomes
  -- eligible, if no lease had lapsed and no pending job was early when the report was made.
  pub next_claim_at_none_eligible :
      (db : Jobs) (t : ℤ)
      → pos 0 <ℤ now
      → now ≤ℤ u
      → queue_next_claim_at queue now db ≡ ok t
      → (t ≡ pos 0) ⊎ (u <ℤ t)
      → count_if (is_lapsed queue now) db.live ≡ 0
      → count_if (is_early now) db.live ≡ 0
      → count_if (is_eligible queue u) db.live ≡ 0
  unfolding next_scheduled next_lapse
  next_claim_at_none_eligible db t p h report before_t no_lapsed no_early =
      let (due, e) = report_says db t p h report before_t in
      let (s, l) = earliest-Later (next_scheduled queue now db) (next_lapse queue now db) p h e in
      none_eligible db.live h due no_lapsed no_early s l

no_grants :
    (queue worker : String) (timeout u : ℤ) (db : Jobs) (cs : List Claimed)
    → count_if (is_eligible queue u) db.live ≡ 0
    → All (IsGranted queue worker timeout u db) cs
    → cs ≡ []
unfolding backed
no_grants queue worker timeout u db [] z h = refl
no_grants queue worker timeout u db (c ∷ cs) z h = absurd (
    omega (
      arith,
      h.0.eligible,
      count_if_imp (backed queue u c) (is_eligible queue u) (λ r e. ground arith) db.live,
      z,
    ))

-- A worker that sleeps until the reported time, or for ever where 0 is reported, misses nothing: a
-- claim on the same valid database before that time, by anyone and for any number of jobs, hands
-- out none. It is assumed that the clock is past 0, and that when the report was made no lease had
-- lapsed and no pending job was early.
pub next_claim_at_sound :
    (queue worker : String) (now u n timeout t : ℤ) (db : Jobs) (cs : List Claimed) (db' : Jobs)
    → IsValid db
    → pos 0 <ℤ now
    → now ≤ℤ u
    → queue_next_claim_at queue now db ≡ ok t
    → (t ≡ pos 0) ⊎ (u <ℤ t)
    → count_if (is_lapsed queue now) db.live ≡ 0
    → count_if (is_early now) db.live ≡ 0
    → claim_batch queue worker n timeout u db ≡ (ok cs, db')
    → cs ≡ []
next_claim_at_sound queue worker now u n timeout t db cs db' v p h report before_t no_lapsed
      no_early done =
    no_grants queue worker timeout u db cs
      (next_claim_at_none_eligible queue now u db t p h report before_t no_lapsed no_early)
      (claim_batch_grants queue worker n timeout u db v cs db' done)
