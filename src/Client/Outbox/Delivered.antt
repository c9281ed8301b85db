-- ===== src/Client/Outbox/Delivered.antt =====
-- What `Outbox::run_once` does with the job that it claims (packages/honker-rs/src/lib.rs).
use honker.Action.{◌>>=◌, ok, Result, resume, pure, err, lift}
use honker.Queue.History.{run, Call, run-IsValid}
use honker.Base.{
  Bool, ℕ, suc, ◌<◌, String, ◌≡◌, refl, true, false, ◌&&◌, Option, none, some, arith, zero, ap, ◌∙◌,
  List, [], ◌∷◌,
}
use honker.Table.{count_if, count_if-select}
use honker.Queue.Finish.{delete_where, leased, ack, retry_with}
use honker.Queue.Claim.{Claimed, claim_batch}
use honker.Queue.Valid.{IsValid}
use honker.Queue.Rows.{Jobs, has_id, tally, Row}
use honker.Base.Int.{ℤ, pos}
use honker.Client.Outbox.{
  job_ack, report, settled, job_retry, did, retry_delay, claim_one, first, run_once, meanwhile,
  deliver,
}
use honker.Table.Counts.{count_if_imp, count_if-select_and}
use honker.Queue.Retry.{retries_and_fails_conserve}
use honker.Queue.Valid.Steps.{claim_batch-Preserves}

-- An ack that removes a row removes the job.
ack_removes :
    (job : ℕ) (worker : String) (now : ℤ) (db : Jobs) (n : ℕ)
    → IsValid db
    → (ack job worker now db).0 ≡ ok (suc n)
    → tally job (ack job worker now db).1 ≡ 0
unfolding ack delete_where leased tally
ack_removes job worker now db n v h =
    let p : Row → Bool = leased job worker now in
    let some_row : 0 < count_if p db.live = ground (arith, h) in
    omega (
      arith,
      some_row,
      count_if_imp p (λ r. has_id job r && p r) (λ r k. ground arith) db.live,
      count_if-select_and (has_id job) p db.live,
      count_if-select (has_id job) p db.live,
      v.distinct job,
    )

-- What the report of a delivery leaves of the job.
abbrev pub left_of : Option String → ℕ → Jobs → ℕ
left_of none job db = 0
left_of (some error) job db = tally job db

same_settled : (b : Bool) (s : Jobs) → (settled b s).1 ≡ s
same_settled true s = refl
same_settled false s = refl

-- A report that returns true had its call change a row, and changed nothing else.
told :
    (r : Result ℕ) (s : Jobs)
    → let x = resume r (λ n. pure (did n)) s in
      (resume x.0 settled x.1).0 ≡ ok true
      → ((n : ℕ) × (r ≡ ok (suc n))) × ((resume x.0 settled x.1).1 ≡ s)
told (err e) s h = absurd (ground (arith, h))
told (ok zero) s h = absurd (ground (arith, h))
told (ok (suc n)) s h = ((n, refl), same_settled (did (suc n)) s)

report-ok :
    (down : Bool) (base : ℤ) (c : Claimed) (o : Option String) (t : ℕ → ℤ) (db : Jobs)
    → IsValid db
    → (report down base c o t db).0 ≡ ok true
    → tally c.id (report down base c o t db).1 ≡ left_of o c.id db
unfolding report job_ack job_retry
report-ok true base c none t db v h = absurd (ground (arith, h))
report-ok true base c (some error) t db v h = absurd (ground (arith, h))
report-ok false base c none t db v h =
    let ((n, one), same_db) =
      told (ack c.id c.worker_id (t 0) db).0 (ack c.id c.worker_id (t 0) db).1 h in
    ap (tally c.id) same_db ∙ ack_removes c.id c.worker_id (t 0) db n v one
report-ok false base c (some error) t db v h =
    let m =
      retry_with c.id c.worker_id (retry_delay base c.attempts) error none (t 0) (t 1) (t 2) (t 3)
        db in
    let (_, same_db) = told m.0 m.1 h in
    ap (tally c.id) same_db
    ∙ (retries_and_fails_conserve c.id db c.id c.worker_id (retry_delay base c.attempts) error none
        (t 0) (t 1) (t 2) (t 3) v).0

module _ {V : Type 0} (from_slice : String → Result V) (delivery : V → Option String) where
  -- A job was handed out by the claim in `db` and delivered, and in `db'` it stands in neither table,
  -- or, where the delivery failed, as often as it did when that was over.
  pub record IsSettled (claim : Result (List Claimed) × Jobs) (calls : List Call) (db' : Jobs)
      : Type 0 where
    pub job : Claimed
    pub others : List Claimed
    pub payload : V
    pub handed_out : claim.0 ≡ ok (job ∷ others)
    pub parsed : from_slice job.payload ≡ ok payload
    pub left : tally job.id db' ≡ left_of (delivery payload) job.id (run claim.1 calls)

  parsed-ok :
      (down : Bool) (base : ℤ) (calls : List Call) (c : Claimed) (cs : List Claimed) (t : ℕ → ℤ)
      (db : Jobs) (r : Result V)
      → from_slice c.payload ≡ r
      → IsValid db
      → let m =
          (lift r >>= λ payload.
          meanwhile from_slice delivery calls >>= λ _. report down base c (delivery payload) t)
            db in
        m.0 ≡ ok true → IsSettled (ok (c ∷ cs), db) calls m.1
  parsed-ok down base calls c cs t db (err e) p v h = absurd (ground (arith, h))
  parsed-ok down base calls c cs t db (ok payload) p v h = record {
    job = c;
    others = cs;
    payload = payload;
    handed_out = refl;
    parsed = p;
    left = report-ok down base c (delivery payload) t (run db calls) (run-IsValid calls db v) h;
  }

  delivered-ok :
      (down : Bool) (base : ℤ) (calls : List Call) (t : ℕ → ℤ)
      (claim : Result (List Claimed) × Jobs)
      → IsValid claim.1
      → let m = (resume claim.0 (λ cs. pure (first cs)) claim.1) in
        let y = resume m.0 (λ o. deliver from_slice delivery down base calls o t) m.1 in
        y.0 ≡ ok true → IsSettled claim calls y.1
  unfolding deliver
  delivered-ok down base calls t (err e, s) v h = absurd (ground (arith, h))
  delivered-ok down base calls t (ok [], s) v h = absurd (ground (arith, h))
  delivered-ok down base calls t (ok (c ∷ cs), s) v h =
      parsed-ok down base calls c cs t s (from_slice c.payload) refl v h

  -- When `run_once` returns true in a valid database, its claim handed a job out, the delivery got that
  -- job's payload, and the job now stands in neither table if the delivery succeeded. If it failed, the
  -- job stands in the two tables as often as it did when the delivery was over: it is neither lost nor
  -- doubled. This holds whatever calls others made during the delivery.
  pub run_once-IsSettled :
      (claim_down down : Bool) (queue worker : String) (timeout base now : ℤ) (calls : List Call)
      (t : ℕ → ℤ) (db : Jobs)
      → IsValid db
      → (run_once from_slice delivery claim_down down queue worker timeout base now calls t db).0
        ≡ ok true
      → IsSettled
          (claim_batch queue worker (pos 1) timeout now db)
          calls
          (run_once from_slice delivery claim_down down queue worker timeout base now calls t db).1
  unfolding run_once claim_one
  run_once-IsSettled true down queue worker timeout base now calls t db v h =
      absurd (ground (arith, h))
  run_once-IsSettled false down queue worker timeout base now calls t db v h =
      delivered-ok down base calls t (claim_batch queue worker (pos 1) timeout now db)
        ((claim_batch-Preserves queue worker (pos 1) timeout now).at db v) h
