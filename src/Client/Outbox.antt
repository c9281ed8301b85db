-- ===== src/Client/Outbox.antt =====
-- `Outbox` of the Rust wrapper: jobs that are delivered, and tried again later where that fails
-- (packages/honker-rs/src/lib.rs).
pub mod Delivered
pub mod Backoff
use honker.Base.{
  Bool, ℕ, ◌-◌, ◌*◌, ◌%◌, ◌^◌, String, true, false, Option, none, some, List, [], ◌∷◌, ltb, ◌==◌,
  leb, if◌then◌else◌,
}
use honker.Action.{ok, raise, Action, outbox_failed, lift, ◌>>◌, ◌>>=◌, Result, pure}
use honker.Client.{with_conn}
use honker.Queue.History.{Call}
use honker.Queue.Finish.{ack, retry_with}
use honker.Queue.Claim.{claim_batch, Claimed}
use honker.Queue.Rows.{Jobs}
use honker.Base.Int.{ℤ, pos, negsuc, i64_max}
use honker.Queue.History.{run}
use honker.Savepoint.{done}

abbrev pub saturated : ℕ → ℕ
saturated n = if leb n i64_max then n else i64_max

-- `attempts.saturating_sub(1) as u32`, of an `i64`: -1 wraps round.
abbrev pub exponent : ℕ → ℕ
exponent attempts = if attempts == 0 then 2 ^ 32 - 1 else (attempts - 1) % 2 ^ 32

-- `2_i64.saturating_pow(exponent)`
abbrev pub backoff : ℕ → ℕ
backoff attempts = saturated (2 ^ exponent attempts)

unfoldable pub retry_delay : ℤ → ℕ → ℤ
retry_delay (negsuc _) attempts = pos 0
retry_delay (pos base) attempts =
    if base == 0 then pos 0 else pos (saturated (base * backoff attempts))

abbrev pub first : List Claimed → Option Claimed
first [] = none
first (c ∷ cs) = some c

-- `n > 0` of the count that a call returned.
abbrev pub did : ℕ → Bool
did n = ltb 0 n

unfoldable pub claim_one : Bool → String → String → ℤ → ℤ → Action Jobs (Option Claimed)
claim_one down queue worker timeout now = do
  cs ← with_conn down (claim_batch queue worker (pos 1) timeout now)
  pure (first cs)

unfoldable pub job_ack : Bool → Claimed → ℤ → Action Jobs Bool
job_ack down c now = do n ← with_conn down (ack c.id c.worker_id now); pure (did n)

unfoldable pub job_retry : Bool → Claimed → ℤ → String → (ℕ → ℤ) → Action Jobs Bool
job_retry down c delay_s error t = do
  n ← with_conn down (retry_with c.id c.worker_id delay_s error none (t 0) (t 1) (t 2) (t 3))
  pure (did n)

abbrev pub settled : Bool → Action Jobs Bool
settled b = if b then pure true else raise outbox_failed

-- What follows the delivery; `t` are the readings of the clock in its statements.
unfoldable pub report : Bool → ℤ → Claimed → Option String → (ℕ → ℤ) → Action Jobs Bool
report down base c none t = do removed ← job_ack down c (t 0); settled removed
report down base c (some error) t = do
  retried ← job_retry down c (retry_delay base c.attempts) error t
  settled retried

-- `from_slice` is serde_json's, and `delivery` the caller's: `some error` where it fails.
module _ {V : Type 0} (from_slice : String → Result V) (delivery : V → Option String) where
  -- The calls that are made while the delivery runs.
  abbrev pub meanwhile : List Call → Action Jobs Unit
  meanwhile calls db = (ok tt, run db calls)

  unfoldable pub deliver : Bool → ℤ → List Call → Option Claimed → (ℕ → ℤ) → Action Jobs Bool
  deliver down base calls none t = pure false
  deliver down base calls (some c) t = do
    payload ← lift (from_slice c.payload)
    meanwhile calls
    report down base c (delivery payload) t

  -- The queue's name is `_outbox:` and the outbox's. `claim_down` and `down` say which calls fail.
  unfoldable pub run_once :
      (claim_down down : Bool)
      → String
      → String
      → ℤ
      → ℤ
      → ℤ
      → List Call
      → (ℕ → ℤ)
      → Action Jobs Bool
  run_once claim_down down queue worker timeout base now calls t = do
    claimed_job ← claim_one claim_down queue worker timeout now
    deliver down base calls claimed_job t
