-- ===== src/Queue/Submit.antt =====
-- `enqueue`, `enqueue_at` and `check_max_attempts` (honker-core/src/honker_ops.rs).
use honker.Action.{ok, raise, max_attempts_too_small, full, ◌>>◌, Action, pure, err}
use honker.Queue.Rows.{Jobs, Row, pending, scheduled}
use honker.Base.Int.{i64_max, add_i64, ℤ, pos, ltb_ℤ}
use honker.Base.{ℕ, ◌+◌, String, Option, none, some, [], ◌∷◌, ◌++◌, ltb, if◌then◌else◌}

unfoldable pub check_max_attempts {ℓ} : {S : Type ℓ} → ℤ → Action S (Unit {ℓ})
check_max_attempts max_attempts =
    if ltb_ℤ max_attempts (pos 1) then raise max_attempts_too_small else pure tt

-- delay wins over run_at, and the default is the clock
unfoldable pub effective_run_at : ℤ → Option ℤ → Option ℤ → ℤ
effective_run_at now (some d) run_at = add_i64 now d
effective_run_at now none (some r) = r
effective_run_at now none none = now

abbrev expiry : ℤ → Option ℤ → Option ℤ
expiry now none = none
expiry now (some e) = some (add_i64 now e)

-- The row that the INSERT adds. `created` is the reading of the column's default `unixepoch()`.
unfoldable pub new_row : ℕ → ℤ → ℤ → String → String → Option ℤ → Option ℤ → ℤ → ℤ → Option ℤ → Row
unfolding effective_run_at
new_row id now created queue payload run_at delay priority max_attempts expires =
    let due = effective_run_at now delay run_at in
    record {
      id = id;
      queue = queue;
      payload = payload;
      state = if ltb_ℤ now due then scheduled else pending;
      priority = priority;
      run_at = due;
      worker_id = none;
      claim_expires_at = none;
      attempts = 0;
      max_attempts = max_attempts;
      created_at = created;
      expires_at = expiry now expires;
      claimed_at = none;
    }

-- AUTOINCREMENT never uses an id twice, and fails when the largest has been used.
unfoldable pub enqueue_at :
    ℤ → ℤ → String → String → Option ℤ → Option ℤ → ℤ → ℤ → Option ℤ → Action Jobs ℕ
unfolding new_row
enqueue_at now created queue payload run_at delay priority max_attempts expires db =
    if ltb i64_max db.next_id then (err full, db) else (
      ok db.next_id,
      record db {
        live =
            db.live
            ++ new_row db.next_id now created queue payload run_at delay priority max_attempts
                expires
              ∷ [];
        next_id = db.next_id + 1;
      },
    )

unfoldable pub enqueue :
    ℤ → ℤ → String → String → Option ℤ → Option ℤ → ℤ → ℤ → Option ℤ → Action Jobs ℕ
unfolding enqueue_at check_max_attempts
enqueue now created queue payload run_at delay priority max_attempts expires = do
  check_max_attempts max_attempts
  enqueue_at now created queue payload run_at delay priority max_attempts expires
