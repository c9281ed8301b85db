-- ===== src/Queue/Deadline.antt =====
-- `queue_next_claim_at` (honker-core/src/honker_ops.rs): when a worker that found nothing should look
-- again.
pub mod Wait
pub mod Lapsed
use honker.Action.{Result, ok, invalid_column, err}
use honker.Table.{select, count_if}
use honker.Queue.Claim.{or_zero}
use honker.Queue.Manage.{opt_in_i64}
use honker.Queue.Rows.{
  is_processing, holds_until, unexpired, is_due, scheduled, Row, has_attempts, is_scheduled, Jobs,
}
use honker.Base.Int.{◌+ℤ◌, leb_ℤ, pos, ℤ}
use honker.Base.{
  String, Bool, ◌&&◌, Option, none, some, List, [], ◌∷◌, map, str_eq, ltb, if◌then◌else◌,
}

-- The least value, as ORDER BY x LIMIT 1 selects it.
unfoldable pub least : List ℤ → Option ℤ
least [] = none
least (x ∷ xs) = some (elim (least xs) [ none ↦ x | some y ↦ if leb_ℤ x y then x else y ])

-- A scheduled row that a claim may take later.
unfoldable pub is_waiting : String → ℤ → Row → Bool
is_waiting queue now r =
    str_eq r.queue queue && is_scheduled r.state && has_attempts r && unexpired r.expires_at now

-- A row under a valid lease that a claim may take when it lapses.
unfoldable pub is_leased : String → ℤ → Row → Bool
is_leased queue now r =
    str_eq r.queue queue
    && is_processing r.state
    && holds_until r.claim_expires_at now
    && has_attempts r
    && unexpired r.expires_at now

-- claim_expires_at + 1
unfoldable pub lease_end : Row → ℤ
lease_end r = or_zero r.claim_expires_at +ℤ pos 1

abbrev max_ℤ : ℤ → ℤ → ℤ
max_ℤ a b = if leb_ℤ a b then b else a

abbrev min_ℤ : ℤ → ℤ → ℤ
min_ℤ a b = if leb_ℤ a b then a else b

unfoldable pub earliest : ℤ → Option ℤ → Option ℤ → ℤ
earliest now none none = pos 0
earliest now (some a) none = max_ℤ a now
earliest now none (some b) = max_ℤ b now
earliest now (some a) (some b) = max_ℤ (min_ℤ a b) now

unfoldable pub next_scheduled : String → ℤ → Jobs → Option ℤ
next_scheduled queue now db = least (map (λ r. r.run_at) (select (is_waiting queue now) db.live))

unfoldable pub next_lapse : String → ℤ → Jobs → Option ℤ
next_lapse queue now db = least (map lease_end (select (is_leased queue now) db.live))

-- Each deadline is decoded, also when a due row makes it unimportant.
unfoldable pub queue_next_claim_at : String → ℤ → Jobs → Result ℤ
queue_next_claim_at queue now db =
    let scheduled = next_scheduled queue now db in
    let lease = next_lapse queue now db in
    if opt_in_i64 scheduled && opt_in_i64 lease
    then ok
        (if ltb 0 (count_if (is_due queue now) db.live) then now else earliest now scheduled lease)
    else err invalid_column
