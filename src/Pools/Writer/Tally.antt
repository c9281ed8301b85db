-- ===== src/Pools/Writer/Tally.antt =====
-- How many threads stand where, over the steps of the write slot (honker-core/src/lib.rs).
use honker.Pools.Writer.{
  Call, releasing, holding, trying, outside, woken, looping, call_at, blocked, closing, wake_one,
  set_at,
}
use honker.Base.{ℕ, zero, suc, ◌+◌, ◌-◌, ◌≡◌, refl, sym, some, List, [], ◌∷◌, map, arith}

abbrev pub held : Call → ℕ
held (holding conn) = 1
held (releasing conn) = 1
held _ = 0

abbrev pub waits : Call → ℕ
waits blocked = 1
waits _ = 0

abbrev pub loops : Call → ℕ
loops looping = 1
loops _ = 0

abbrev pub closes : Call → ℕ
closes closing = 1
closes _ = 0

abbrev pub tally : (Call → ℕ) → List Call → ℕ
tally p [] = 0
tally p (c ∷ cs) = p c + tally p cs

pub tally-set_at :
    (p : Call → ℕ) (i : ℕ) (new old : Call) (cs : List Call)
    → call_at i cs ≡ some old
    → tally p (set_at i new cs) + p old ≡ tally p cs + p new
tally-set_at p i new old [] h = absurd (ground (arith, h))
tally-set_at p zero new old (c ∷ cs) h =
    let same : c ≡ old = ground (arith, h) in rw (sym same) (omega arith)
tally-set_at p (suc i) new old (c ∷ cs) h =
    let rest = tally-set_at p i new old cs h in omega (arith, rest)

-- The threads that wake are counted as going round, and no others change.
pub wake_one-tally :
    (cs : List Call)
    → (tally held (wake_one cs) ≡ tally held cs)
      × (tally closes (wake_one cs) ≡ tally closes cs)
      × (tally waits (wake_one cs) ≡ tally waits cs - 1)
      × (tally loops (wake_one cs) + tally waits (wake_one cs) ≡ tally loops cs + tally waits cs)
unfolding wake_one
wake_one-tally [] = (refl, refl, refl, refl)
wake_one-tally (blocked ∷ cs) = (refl, refl, omega arith, omega arith)
wake_one-tally (outside ∷ cs) = ground (arith, wake_one-tally cs)
wake_one-tally (trying ∷ cs) = ground (arith, wake_one-tally cs)
wake_one-tally (looping ∷ cs) = ground (arith, wake_one-tally cs)
wake_one-tally (holding n ∷ cs) = ground (arith, wake_one-tally cs)
wake_one-tally (releasing n ∷ cs) = ground (arith, wake_one-tally cs)
wake_one-tally (closing ∷ cs) = ground (arith, wake_one-tally cs)

pub wake_all-tally :
    (cs : List Call)
    → (tally held (map woken cs) ≡ tally held cs)
      × (tally closes (map woken cs) ≡ tally closes cs)
      × (tally waits (map woken cs) ≡ 0)
wake_all-tally [] = (refl, refl, refl)
wake_all-tally (blocked ∷ cs) = ground (arith, wake_all-tally cs)
wake_all-tally (outside ∷ cs) = ground (arith, wake_all-tally cs)
wake_all-tally (trying ∷ cs) = ground (arith, wake_all-tally cs)
wake_all-tally (looping ∷ cs) = ground (arith, wake_all-tally cs)
wake_all-tally (holding n ∷ cs) = ground (arith, wake_all-tally cs)
wake_all-tally (releasing n ∷ cs) = ground (arith, wake_all-tally cs)
wake_all-tally (closing ∷ cs) = ground (arith, wake_all-tally cs)
