-- ===== src/Queue/Fencing/Token.antt =====
-- The token that `claim_batch` hands out with a job (honker-core/src/honker_ops.rs).
use native.Mathlib.Decide.{dec_lt}
use honker.Action.{Result, ok}
use honker.Table.{count_if, count_if-select, reject}
use honker.Queue.History.{run, Call}
use honker.Queue.Finish.{delete_where, ack_fenced, fenced}
use honker.Queue.Claim.{claim_batch, Claimed}
use honker.Queue.Fencing.{IsSpent, run-IsSpent, outdated}
use honker.Queue.Valid.{IsValid, live-IsDistinct}
use honker.Queue.Rows.{has_id, Jobs, tally, Row, dead_has_id}
use honker.Queue.Fencing.Stale.{Misses, IsSpent-Misses}
use honker.Queue.Batch.Exclusive.{claim_batch_recorded, is_claim_of}
use honker.Queue.Valid.Steps.{claim_batch-Preserves}
use honker.Base.Int.{ℤ}
use honker.Table.Counts.{count_if_disjoint, count_if_imp, count_if-select_and}
use honker.Base.{
  ℕ, ◌≤◌, ◌<◌, String, ◌≡◌, ap, subst, Memᴰ, List, arith, All-lookup, ◌+◌, Bool, ◌&&◌,
}

module _ (queue worker : String) (n timeout now : ℤ) (db : Jobs) (cs : List Claimed) (db' : Jobs)
    (v : IsValid db) (done : claim_batch queue worker n timeout now db ≡ (ok cs, db')) where
  after_claim-IsValid : IsValid db'
  after_claim-IsValid =
      subst IsValid (ap (λ (x : Result (List Claimed) × Jobs). x.1) done)
        ((claim_batch-Preserves queue worker n timeout now).at db v)

  claim_count : (c : Claimed) → Memᴰ c cs → 0 < count_if (is_claim_of c) db'.live
  claim_count c m =
      All-lookup (λ d. 0 < count_if (is_claim_of d) db'.live) cs
        (claim_batch_recorded queue worker n timeout now db cs db' done) m

  spends : (c : Claimed) (a : ℕ) → Memᴰ c cs → a < c.attempts → IsSpent c.id a db'
  unfolding is_claim_of outdated tally
  spends c a m less = record {
    used = elim (dec_lt c.id db'.next_id) [
      | yes h ↦ h
      | no h ↦ absurd (omega (arith, claim_count c m, here, after_claim-IsValid.fresh c.id))
    ];
    none_left = omega (
      arith,
      claim_count c m,
      live-IsDistinct db' after_claim-IsValid c.id,
      count_if_disjoint (is_claim_of c) (outdated c.id a) (has_id c.id) (λ r h. ground arith)
          (λ r h. ground arith) (λ r h k. ground arith) db'.live,
    );
  }
    where
      here : count_if (is_claim_of c) db'.live ≤ count_if (has_id c.id) db'.live
      here = count_if_imp (is_claim_of c) (has_id c.id) (λ r h. ground arith) db'.live

  -- After a claim on a valid database has handed out a job, no fenced call with an older token of
  -- that job changes anything, whatever calls were made in between.
  pub claim_fences :
      (c : Claimed) (a : ℕ) (calls : List Call)
      → Memᴰ c cs
      → a < c.attempts
      → Misses c.id a (run db' calls)
  claim_fences c a calls m less =
      IsSpent-Misses c.id a (run db' calls) (run-IsSpent c.id a calls db' (spends c a m less))

  -- Right after a claim on a valid database, the fenced ack with the token of a job that it handed
  -- out returns 1, and the job then stands in neither table.
  ack_after_claim :
      (c : Claimed)
      → Memᴰ c cs
      → ((ack_fenced c.id c.worker_id c.attempts db').0 ≡ ok 1)
        × (tally c.id (ack_fenced c.id c.worker_id c.attempts db').1 ≡ 0)
  unfolding ack_fenced delete_where fenced tally is_claim_of
  ack_after_claim c m =
      let p : Row → Bool = fenced c.id c.worker_id c.attempts in
      let facts : (count_if p db'.live ≡ 1)
          × (count_if (has_id c.id) (reject p db'.live) + count_if (dead_has_id c.id) db'.dead
              ≡ 0) =
        omega (
          arith,
          claim_count c m,
          count_if_imp (is_claim_of c) p (λ r h. ground arith) db'.live,
          count_if_imp p (has_id c.id) (λ r h. ground arith) db'.live,
          count_if_imp p (λ r. has_id c.id r && p r) (λ r h. ground arith) db'.live,
          count_if-select_and (has_id c.id) p db'.live,
          count_if-select (has_id c.id) p db'.live,
          after_claim-IsValid.distinct c.id,
        ) in
      (ap ok facts.0, facts.1)
