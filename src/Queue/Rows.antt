-- ===== src/Queue/Rows.antt =====
-- The rows of `_honker_live` and `_honker_dead` (honker-core/src/lib.rs, BOOTSTRAP_HONKER_SQL), and
-- the conditions that the statements of honker-core/src/honker_ops.rs test on a row.
-- A timestamp, a priority or a budget is an INTEGER of any sign. Row ids and `attempts` start at 0
-- and grow, so they are natural numbers. NULL is `none`, and a comparison with NULL is not true.
use honker.Table.{count_if}
use honker.Base.Int.{leb_ℤ, ltb_ℤ, ℤ, pos}
use honker.Base.{
  ℕ, ◌+◌, String, Bool, true, false, ◌&&◌, ◌||◌, Option, none, some, List, str_eq, ◌==◌,
}

pub data State : Type 0 where
  scheduled pending processing : State

pub record Row : Type 0 where
  pub id : ℕ
  pub queue : String
  pub payload : String
  pub state : State
  pub priority : ℤ
  pub run_at : ℤ
  pub worker_id : Option String
  pub claim_expires_at : Option ℤ
  pub attempts : ℕ
  pub max_attempts : ℤ
  pub created_at : ℤ
  pub expires_at : Option ℤ
  pub claimed_at : Option ℤ

pub record DeadJob : Type 0 where
  pub id : ℕ
  pub queue : String
  pub payload : String
  pub priority : ℤ
  pub run_at : ℤ
  pub attempts : ℕ
  pub max_attempts : ℤ
  pub last_error : String
  pub created_at : ℤ
  pub died_at : ℤ

-- `live` is in the order of the ids. AUTOINCREMENT gives `next_id` to the next row.
pub record Jobs : Type 0 where
  pub live : List Row
  pub dead : List DeadJob
  pub next_id : ℕ

abbrev pub is_scheduled : State → Bool
is_scheduled scheduled = true
is_scheduled _ = false

abbrev pub is_pending : State → Bool
is_pending pending = true
is_pending _ = false

abbrev pub is_processing : State → Bool
is_processing processing = true
is_processing _ = false

-- t < now, on a nullable column
abbrev pub before : Option ℤ → ℤ → Bool
before none now = false
before (some t) now = ltb_ℤ t now

-- t <= now
abbrev pub reached : Option ℤ → ℤ → Bool
reached none now = false
reached (some t) now = leb_ℤ t now

-- t >= now
abbrev pub holds_until : Option ℤ → ℤ → Bool
holds_until none now = false
holds_until (some t) now = leb_ℤ now t

-- t IS NULL OR t > now
abbrev pub unexpired : Option ℤ → ℤ → Bool
unexpired none now = true
unexpired (some t) now = ltb_ℤ now t

-- worker_id = ?
abbrev pub is_worker : Option String → String → Bool
is_worker none w = false
is_worker (some v) w = str_eq v w

-- attempts < max_attempts
abbrev pub has_attempts : Row → Bool
has_attempts r = ltb_ℤ (pos r.attempts) r.max_attempts

-- The first arm of CLAIM_SQL: due rows.
unfoldable pub is_due : String → ℤ → Row → Bool
is_due queue now r =
    str_eq r.queue queue
    && is_pending r.state
    && leb_ℤ r.run_at now
    && has_attempts r
    && unexpired r.expires_at now

-- The second arm of CLAIM_SQL: leases that lapsed.
unfoldable pub is_lapsed : String → ℤ → Row → Bool
is_lapsed queue now r =
    str_eq r.queue queue
    && is_processing r.state
    && before r.claim_expires_at now
    && has_attempts r
    && unexpired r.expires_at now

-- PROMOTE_SQL
unfoldable pub is_promoted : String → ℤ → Row → Bool
is_promoted queue now r = str_eq r.queue queue && is_scheduled r.state && leb_ℤ r.run_at now

-- EXPIRE_IDS
unfoldable pub is_expired : String → ℤ → Row → Bool
is_expired queue now r =
    str_eq r.queue queue
    && reached r.expires_at now
    && (is_pending r.state
        || is_scheduled r.state
        || is_processing r.state && before r.claim_expires_at now)

-- EXHAUSTED_IDS
unfoldable pub is_exhausted : String → ℤ → Row → Bool
is_exhausted queue now r =
    str_eq r.queue queue
    && is_processing r.state
    && before r.claim_expires_at now
    && leb_ℤ r.max_attempts (pos r.attempts)

abbrev pub has_id : ℕ → Row → Bool
has_id i r = r.id == i

abbrev pub dead_has_id : ℕ → DeadJob → Bool
dead_has_id i d = d.id == i

-- How often an id stands in the two tables.
unfoldable pub tally : ℕ → Jobs → ℕ
tally i db = count_if (has_id i) db.live + count_if (dead_has_id i) db.dead
