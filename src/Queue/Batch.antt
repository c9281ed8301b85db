-- ===== src/Queue/Batch.antt =====
-- The phases of `claim_batch` (honker-core/src/honker_ops.rs): the database that its housekeeping leaves, and
-- the rows that it takes from there.
pub mod Grant
pub mod Exclusive
pub mod Progress
pub mod Liveness
use honker.Action.{ok}
use honker.Table.{select, update}
use honker.Queue.Claim.{
  take_claims, id_in, claim_batch_inner, promote, exhausted_ids, claim_ids, Claimed, set_claimed,
  claim_batch, expire_ids, decode_all, claimed, housekeeping_limit, move_to_dead,
}
use honker.Queue.Valid.{IsValid}
use honker.Queue.Rows.{Jobs, Row}
use honker.Base.Int.{ℤ}
use honker.Action.Outcome.{Result-cases, bind_ok, in_savepoint_ok}
use honker.Base.{String, ◌≡◌, sym, ap, inl, inr, List, [], ◌∷◌, map, arith}
use honker.Queue.Valid.Steps.{move_to_dead-Preserves, promote-Preserves}

-- The database after the three housekeeping steps of a claim.
unfoldable pub prepared : String → ℤ → Jobs → Jobs
prepared queue now db =
    let promoted = (promote queue now housekeeping_limit db).1 in
    let swept = (move_to_dead (expire_ids queue now housekeeping_limit) now "expired" promoted).1 in
    (move_to_dead (exhausted_ids queue now housekeeping_limit) now "max attempts exceeded" swept).1

-- The rows that the claim takes.
unfoldable pub taken : String → ℤ → ℤ → Jobs → List Row
taken queue n now db =
    let live = (prepared queue now db).live in select (id_in (claim_ids queue n now live)) live

pub prepared-IsValid :
    (queue : String) (now : ℤ) (db : Jobs) → IsValid db → IsValid (prepared queue now db)
unfolding prepared
prepared-IsValid queue now db v = (move_to_dead-Preserves _ now "max attempts exceeded").at _ (
    (move_to_dead-Preserves _ now "expired").at _
      ((promote-Preserves queue now housekeeping_limit).at db v))

decode_all_ok : (xs ys : List Claimed) → decode_all xs ≡ ok ys → ys ≡ xs
unfolding decode_all
decode_all_ok [] ys h = ground arith
decode_all_ok (x ∷ xs) ys h = elim (Result-cases (decode_all xs)) [
  | inl (zs, e) ↦ ground (arith, decode_all_ok xs zs e)
  | inr (x, e) ↦ absurd (ground arith)
]

module _ (queue worker : String) (n timeout now : ℤ) (db : Jobs) (cs : List Claimed) (db' : Jobs)
    (done : claim_batch queue worker n timeout now db ≡ (ok cs, db')) where
  claim_batch_taken :
      ((take_claims queue worker n timeout now (prepared queue now db)).0 ≡ ok cs)
      × ((take_claims queue worker n timeout now (prepared queue now db)).1 ≡ db')
  unfolding claim_batch claim_batch_inner prepared
  claim_batch_taken =
      let (r, s) = in_savepoint_ok (claim_batch_inner queue worker n timeout now) db db' cs done in
      let (a, _, r₁, s₁) = bind_ok (promote queue now housekeeping_limit) _ db db' cs r s in
      let (b, _, r₂, s₂) = bind_ok (move_to_dead _ now "expired") _ _ db' cs r₁ s₁ in
      let (c, _, r₃, s₃) = bind_ok (move_to_dead _ now "max attempts exceeded") _ _ db' cs r₂ s₂ in
      (r₃, s₃)

  -- A successful claim returns the taken rows, one object for each.
  pub claims-eq-taken : cs ≡ map (claimed worker timeout now) (taken queue n now db)
  unfolding taken take_claims
  claims-eq-taken = decode_all_ok _ cs claim_batch_taken.0

  pub live_after_claim :
      db'.live
      ≡ update
          (id_in (claim_ids queue n now (prepared queue now db).live))
          (set_claimed worker timeout now)
          (prepared queue now db).live
  unfolding take_claims
  live_after_claim = sym (ap (λ (d : Jobs). d.live) claim_batch_taken.1)
