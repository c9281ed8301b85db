-- ===== src/Queue/Fencing.antt =====
-- The attempt token of `ack_fenced` and the other fenced calls, over histories of calls
-- (honker-core/src/honker_ops.rs).
pub mod Stale
pub mod Token
use honker.Table.{count_if, count_if-append}
use honker.Queue.Moves.{move_to_dead_lem}
use honker.Queue.Bury.{live-dead_letter, dead_letter}
use honker.Queue.Finish.{
  update_where, delete_where, set_retried, retry_guard, ack_batch, retry_with, fail_inner,
  ack_fenced, ack, retry_exhausted, fail,
}
use honker.Queue.Claim.{
  promote, id_in, set_claimed, take_claims, move_to_dead, claim_batch_inner, housekeeping_limit,
  claim_batch, sweep_expired,
}
use honker.Queue.Rows.{Jobs, pending, Row, has_attempts}
use honker.Base.Int.{ℤ}
use honker.Action.Keeps.{Keeps, Preorder, Keeps-pure, Keeps-in_savepoint, Keeps-bind, Keeps-if}
use honker.Table.Counts.{count_if-update-le, count_if-reject-le}
use honker.Base.{
  ℕ, ◌≤◌, ◌<◌, String, ◌≡◌, Bool, ◌&&◌, List, arith, ◌==◌, leb, refl, Option, [], ◌∷◌, ltb,
}
use honker.Queue.History.{
  step, fails, claims, heartbeats, sweeps, cancels, Call, acks_fenced, acks, retries, enqueues,
  heartbeats_fenced, acks_batch, run, cancels_in_queue,
}
use honker.Queue.Manage.{heartbeat, cancel_in_queue, heartbeat_fenced, extend, cancel}
use honker.Queue.Submit.{new_row, enqueue}

-- A row of the job whose attempt is not past `a`.
unfoldable pub outdated : ℕ → ℕ → Row → Bool
outdated i a r = r.id == i && leb r.attempts a

-- No live row of the job `i` can be matched by a token up to `a`, now or later: the row that has
-- the id, if there is one, is past that attempt, and no new row will get the id.
pub record IsSpent (i a : ℕ) (db : Jobs) : Type 0 where
  pub used : i < db.next_id
  pub none_left : count_if (outdated i a) db.live ≡ 0

-- Rows of the job at an attempt up to `a` do not come about.
pub record Wanes (i a : ℕ) (db db' : Jobs) : Type 0 where
  pub ids : db.next_id ≤ db'.next_id
  pub rows : i < db.next_id → count_if (outdated i a) db'.live ≤ count_if (outdated i a) db.live

module _ (i a : ℕ) where
  Wanes-Preorder : Preorder (Wanes i a)
  Wanes-Preorder = record {
    same = λ s. record { ids = omega arith; rows = λ h. omega arith };
    trans = λ s t u p q. record {
      ids = omega (arith, p.ids, q.ids);
      rows = λ h. omega (arith, p.ids, p.rows h, q.rows (omega (arith, p.ids)));
    };
  }

  promote-Wanes : (queue : String) (now n : ℤ) → Keeps (Wanes i a) (promote queue now n)
  unfolding promote outdated
  promote-Wanes queue now n = record {
    at = λ db. record {
      ids = omega arith;
      rows = λ h.
          count_if-update-le (outdated i a) _ (λ r. record r { state = pending }) (λ r e. e)
            db.live;
    };
  }

  take_claims-Wanes :
      (queue worker : String) (n timeout now : ℤ)
      → Keeps (Wanes i a) (take_claims queue worker n timeout now)
  unfolding take_claims outdated set_claimed
  take_claims-Wanes queue worker n timeout now = record {
    at = λ db. record {
      ids = omega arith;
      rows = λ h.
          count_if-update-le (outdated i a) _ (set_claimed worker timeout now) (λ r e. ground arith)
            db.live;
    };
  }

  move_to_dead-Wanes :
      (ids : List Row → List ℕ) (now : ℤ) (error : String)
      → Keeps (Wanes i a) (move_to_dead ids now error)
  move_to_dead-Wanes ids now error = record {
    at = λ db.
        rw move_to_dead_lem
          (ground (arith, count_if-reject-le (outdated i a) (id_in (ids db.live)) db.live));
  }

  delete_where-Wanes : (p : Row → Bool) → Keeps (Wanes i a) (delete_where p)
  unfolding delete_where
  delete_where-Wanes p = record {
    at =
        λ db. record { ids = omega arith; rows = λ h. count_if-reject-le (outdated i a) p db.live };
  }

  update_where-Wanes :
      (p : Row → Bool) (f : Row → Row)
      → ((r : Row) → (f r).id ≡ r.id)
      → ((r : Row) → (f r).attempts ≡ r.attempts)
      → Keeps (Wanes i a) (update_where p f)
  unfolding update_where outdated
  update_where-Wanes p f ids attempts = record {
    at = λ db. record {
      ids = omega arith;
      rows = λ h.
          count_if-update-le (outdated i a) p f (λ r e. ground (arith, ids r, attempts r)) db.live;
    };
  }

  dead_letter-Wanes :
      (p : Row → Bool) (error : String) (died : ℤ) → Keeps (Wanes i a) (dead_letter p error died)
  dead_letter-Wanes p error died = record {
    at = λ db.
        let (live, next) = live-dead_letter p error died db in
        record {
          ids = omega (arith, next);
          rows = λ h. rw live (count_if-reject-le (outdated i a) p db.live);
        };
  }

  claim_batch-Wanes :
      (queue worker : String) (n timeout now : ℤ)
      → Keeps (Wanes i a) (claim_batch queue worker n timeout now)
  unfolding claim_batch claim_batch_inner
  claim_batch-Wanes queue worker n timeout now =
      let o = Wanes-Preorder in
      Keeps-in_savepoint o _ (
        Keeps-bind o _ _ (promote-Wanes queue now housekeeping_limit) λ _.
          Keeps-bind o _ _ (move_to_dead-Wanes _ now "expired") λ _.
            Keeps-bind o _ _ (move_to_dead-Wanes _ now "max attempts exceeded")
              λ _. take_claims-Wanes queue worker n timeout now)

  sweep_expired-Wanes : (queue : String) (now : ℤ) → Keeps (Wanes i a) (sweep_expired queue now)
  unfolding sweep_expired
  sweep_expired-Wanes queue now =
      Keeps-in_savepoint Wanes-Preorder _ (move_to_dead-Wanes _ now "expired")

  fail-Wanes :
      (job : ℕ) (worker error : String) (attempt : Option ℕ) (now died : ℤ)
      → Keeps (Wanes i a) (fail job worker error attempt now died)
  unfolding fail fail_inner
  fail-Wanes job worker error attempt now died =
      Keeps-in_savepoint Wanes-Preorder _ (dead_letter-Wanes _ error died)

  retry_exhausted-Wanes :
      (job : ℕ) (worker error : String) (attempt : Option ℕ) (later last died : ℤ)
      → Keeps (Wanes i a) (retry_exhausted job worker error attempt later last died)
  unfolding retry_exhausted
  retry_exhausted-Wanes job worker error attempt later last died = record {
    at = λ db.
        let o = Wanes-Preorder in
        (Keeps-if o _ _ _ (Keeps-in_savepoint o _ (dead_letter-Wanes _ error died))
            (Keeps-pure o 0)).at
          db;
  }

  retry_with-Wanes :
      (job : ℕ) (worker : String) (delay : ℤ) (error : String) (attempt : Option ℕ)
      (now later last died : ℤ)
      → Keeps (Wanes i a) (retry_with job worker delay error attempt now later last died)
  unfolding retry_with set_retried
  retry_with-Wanes job worker delay error attempt now later last died =
      let o = Wanes-Preorder in
      Keeps-bind o _ _
        (update_where-Wanes (λ r. retry_guard job worker attempt now r && has_attempts r)
          (set_retried delay now) (λ r. refl) (λ r. refl))
        λ updated.
          Keeps-if o (ltb 0 updated) _ _ (Keeps-pure o 1)
            (retry_exhausted-Wanes job worker error attempt later last died)

  enqueue-Wanes :
      (now created : ℤ) (queue payload : String) (run_at delay : Option ℤ)
      (priority max_attempts : ℤ) (expires : Option ℤ)
      → Keeps
          (Wanes i a)
          (enqueue now created queue payload run_at delay priority max_attempts expires)
  unfolding enqueue outdated
  enqueue-Wanes now created queue payload run_at delay priority max_attempts expires = record {
    at = λ db. ground (
      arith,
      count_if-append (outdated i a) db.live (
          new_row db.next_id now created queue payload run_at delay priority max_attempts expires
          ∷ []),
    );
  }

  step-Wanes : (c : Call) (db : Jobs) → Wanes i a db (step c db)
  unfolding step ack ack_fenced ack_batch cancel cancel_in_queue heartbeat heartbeat_fenced
  step-Wanes (enqueues now created queue payload run_at delay priority max_attempts expires) =
      (enqueue-Wanes now created queue payload run_at delay priority max_attempts expires).at
  step-Wanes (claims queue worker n timeout now) = (claim_batch-Wanes queue worker n timeout now).at
  step-Wanes (acks job worker now) = (delete_where-Wanes _).at
  step-Wanes (acks_fenced job worker attempt) = (delete_where-Wanes _).at
  step-Wanes (acks_batch items worker now) = (delete_where-Wanes _).at
  step-Wanes (retries job worker delay error attempt now later last died) =
      (retry_with-Wanes job worker delay error attempt now later last died).at
  step-Wanes (fails job worker error attempt now died) =
      (fail-Wanes job worker error attempt now died).at
  step-Wanes (cancels job) = (delete_where-Wanes _).at
  step-Wanes (cancels_in_queue queue job) = (delete_where-Wanes _).at
  step-Wanes (heartbeats job worker extend_s now) =
      (update_where-Wanes _ (extend extend_s now) (λ r. refl) (λ r. refl)).at
  step-Wanes (heartbeats_fenced job worker extend_s attempt now) =
      (update_where-Wanes _ (extend extend_s now) (λ r. refl) (λ r. refl)).at
  step-Wanes (sweeps queue now) = (sweep_expired-Wanes queue now).at

  step-IsSpent : (c : Call) (db : Jobs) → IsSpent i a db → IsSpent i a (step c db)
  step-IsSpent c db h =
      let w = step-Wanes c db in
      record {
        used = omega (arith, h.used, w.ids);
        none_left = omega (arith, h.none_left, w.rows h.used);
      }

  -- A spent token stays spent over every history of calls.
  pub run-IsSpent : (cs : List Call) (db : Jobs) → IsSpent i a db → IsSpent i a (run db cs)
  unfolding run
  run-IsSpent [] db h = h
  run-IsSpent (c ∷ cs) db h = run-IsSpent cs (step c db) (step-IsSpent c db h)
