-- ===== src/RateLimit.antt =====
-- Rate limiting: `rate_limit_try` and `rate_limit_sweep` (honker-core/src/honker_ops.rs), over the
-- table `_honker_rate_limits` (honker-core/src/lib.rs). `window_start` and `count` are of any sign.
pub mod Bounds
use honker.Base.Int.{ℤ, pos, negsuc, ◌+ℤ◌, leb_ℤ, ltb_ℤ, ◌-ℤ◌, eq_ℤ}
use honker.Action.{ok, err, Action, not_positive}
use honker.Table.{reject, count_if, limit}
use honker.Queue.Claim.{key}
use honker.Table.Upsert.{upsert, writes, find}
use honker.Base.{ℕ, suc, ◌*◌, ◌/◌, String, Bool, ◌&&◌, ◌||◌, List, str_eq, if◌then◌else◌}

pub record Window : Type 0 where
  pub name : String
  pub window_start : ℤ
  pub count : ℤ

abbrev pub is_window : String → ℤ → Window → Bool
is_window name start w = str_eq w.name name && eq_ℤ w.window_start start

-- SQLite's division of integers cuts towards 0. (The divisor is positive where it is called.)
abbrev quotient : ℤ → ℕ → ℤ
quotient (pos n) d = pos (n / d)
quotient (negsuc n) d = pos 0 -ℤ pos (suc n / d)

abbrev times : ℤ → ℕ → ℤ
times (pos n) d = pos (n * d)
times (negsuc n) d = pos 0 -ℤ pos (suc n * d)

-- (unixepoch() / per) * per
unfoldable pub window_of : ℤ → ℤ → ℤ
window_of now (pos per) = times (quotient now per) per
window_of now (negsuc per) = pos 0

abbrev pub below : ℤ → Window → Bool
below limit w = ltb_ℤ w.count limit

abbrev pub counted : Window → Window
counted w = record w { count = w.count +ℤ pos 1 }

abbrev pub first_of : String → ℤ → Window
first_of name start = record { name = name; window_start = start; count = pos 1 }

unfoldable pub rate_limit_try : String → ℤ → ℤ → ℤ → Action (List Window) ℕ
unfolding window_of
rate_limit_try name limit per now windows =
    if leb_ℤ limit (pos 0) || leb_ℤ per (pos 0)
    then (err not_positive, windows)
    else (let start = window_of now per in
        let key = is_window name start in
        (
          ok (if writes key (below limit) (find key windows) then 1 else 0),
          upsert key (first_of name start) (below limit) counted windows,
        ))

unfoldable pub rate_limit_sweep : ℤ → ℤ → Action (List Window) ℕ
rate_limit_sweep older_than_s now windows =
    let old : Window → Bool = λ w. ltb_ℤ w.window_start (now -ℤ older_than_s) in
    (ok (count_if old windows), reject old windows)
