-- ===== src/Client/Outbox/Backoff.antt =====
-- The delays of `Outbox::retry_delay` (packages/honker-rs/src/lib.rs).
use native.Mathlib.Nat.{mul-le-mul_left, pow-le-pow_right, one-le-pow}
use honker.Base.{ℕ, ◌+◌, ◌^◌, ◌≤◌, ◌<◌, ◌≡◌, arith}
use honker.Base.Int.{negsuc, ◌≤ℤ◌, pos, i64_max}
use honker.Client.Outbox.{saturated, retry_delay, backoff, exponent}

saturated_mono : (x y : ℕ) → x ≤ y → saturated x ≤ saturated y
saturated_mono x y h = ground arith

exponent_mono :
    (attempts : ℕ) → 0 < attempts → attempts < 2 ^ 32 → exponent attempts ≤ exponent (attempts + 1)
exponent_mono attempts p h = ground (arith, p, h)

backoff_mono :
    (attempts : ℕ) → 0 < attempts → attempts < 2 ^ 32 → backoff attempts ≤ backoff (attempts + 1)
backoff_mono attempts p h = saturated_mono _ _ (
    pow-le-pow_right {n = 2} (omega arith) {i = exponent attempts} {j = exponent (attempts + 1)}
      (exponent_mono attempts p h))

backoff_positive : (attempts : ℕ) → 1 ≤ backoff attempts
backoff_positive attempts =
    saturated_mono 1 (2 ^ exponent attempts) (one-le-pow (exponent attempts) 2 (omega arith))

-- For a positive base that fits an `i64`, and at least one and fewer than 2 ^ 32 attempts, as every
-- claimed job has: the delay before the next try is the base at least, fits an `i64`, and after one more
-- attempt is not shorter. The first delay is the base, and a base that is not positive gives no delay.
pub retry_delay_lem :
    (base attempts n : ℕ)
    → 0 < base
    → base ≤ i64_max
    → 0 < attempts
    → attempts < 2 ^ 32
    → (pos base ≤ℤ retry_delay (pos base) attempts)
      × (retry_delay (pos base) attempts ≤ℤ pos i64_max)
      × (retry_delay (pos base) attempts ≤ℤ retry_delay (pos base) (attempts + 1))
      × (retry_delay (pos base) 1 ≡ pos base)
      × (retry_delay (negsuc n) attempts ≡ pos 0)
      × (retry_delay (pos 0) attempts ≡ pos 0)
unfolding retry_delay
retry_delay_lem base attempts n p small tried few = ground (
  arith,
  mul-le-mul_left base (backoff_positive attempts),
  mul-le-mul_left base (backoff_mono attempts tried few),
)
