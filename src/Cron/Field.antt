-- ===== src/Cron/Field.antt =====
-- The fields of a schedule expression: `parse_field` and `parse_every_interval`
-- (honker-core/src/cron.rs). A `BTreeSet<u32>` is the list of its elements, each once, smallest first.
-- The fields' parse errors are one constructor, `bad_schedule`; their texts are not modelled.
pub mod Members
pub mod Grammar
pub mod Meaning
use honker.Action.{Result, ok, err, bad_schedule}
use honker.Cron.Text.{split, split_once, parse_u32}
use honker.Base.{
  ℕ, zero, suc, ◌+◌, ◌-◌, ◌^◌, Bool, true, false, ◌||◌, Option, none, some, List, [], ◌∷◌, ltb,
  if◌then◌else◌, ◌==◌, leb,
}

-- `BTreeSet::insert`
unfoldable pub insert_into : ℕ → List ℕ → List ℕ
insert_into v [] = v ∷ []
insert_into v (x ∷ xs) =
    let rest = x ∷ insert_into v xs in
    if ltb v x then v ∷ x ∷ xs else if v == x then x ∷ xs else rest

-- `BTreeSet::contains`
abbrev pub member : List ℕ → ℕ → Bool
member [] v = false
member (x ∷ xs) v = v == x || member xs v

abbrev pub u32_max : ℕ
u32_max = 2 ^ 32 - 1

abbrev pub saturating_add : ℕ → ℕ → ℕ
saturating_add a b = if ltb u32_max (a + b) then u32_max else a + b

-- `while v <= end`, for at most `rounds` rounds. A step is positive, so that `end + 1` rounds are
-- enough where `end` is below the largest `u32`.
unfoldable pub fill : ℕ → ℕ → ℕ → ℕ → List ℕ → List ℕ
fill zero v end step out = out
fill (suc rounds) v end step out = elim (leb v end) [
  | true ↦ fill rounds (saturating_add v step) end step (insert_into v out)
  | false ↦ out
]

-- A range with its step.
pub record Range : Type 0 where
  pub start : ℕ
  pub end : ℕ
  pub step : ℕ

abbrev pub or_bad {ℓ} : {A : Type ℓ} → Option A → Result A
or_bad none = err bad_schedule
or_bad (some a) = ok a

module _ {ℓ κ} {A : Type ℓ} {B : Type κ} where
  infixl 5 ◌>>=◌
  -- Rust's `?`
  abbrev pub ◌>>=◌ : Result A → (A → Result B) → Result B
  ok value >>= rest = rest value
  err e >>= rest = err e

abbrev pub positive : ℕ → Result ℕ
positive step = if step == 0 then err bad_schedule else ok step

-- The text before a `/`, with the step after it; without one the step is 1.
abbrev pub with_step : List ℕ → Option (List ℕ × List ℕ) → Result (List ℕ × ℕ)
with_step part none = ok (part, 1)
with_step part (some (r, s)) = or_bad (parse_u32 s) >>= λ n. positive n >>= λ step. ok (r, step)

unfoldable pub range_and_step : List ℕ → Result (List ℕ × ℕ)
unfolding split_once
range_and_step part = with_step part (split_once part b'/')

abbrev pub is_star : List ℕ → Bool
is_star (c ∷ []) = c == b'*'
is_star _ = false

-- `a-b` or a number.
abbrev pub ends_of : List ℕ → Option (List ℕ × List ℕ) → Result (ℕ × ℕ)
ends_of range none = or_bad (parse_u32 range) >>= λ v. ok (v, v)
ends_of range (some (a, b)) = or_bad (parse_u32 a) >>= λ x. or_bad (parse_u32 b) >>= λ y. ok (x, y)

unfoldable pub bounds_of : ℕ → ℕ → List ℕ → Result (ℕ × ℕ)
unfolding split_once
bounds_of lo hi range = if is_star range then ok (lo, hi) else ends_of range (split_once range b'-')

unfoldable pub parse_part : ℕ → ℕ → List ℕ → Result Range
unfolding range_and_step bounds_of
parse_part lo hi part = range_and_step part >>= λ q. bounds_of lo hi q.0 >>= λ b.
    if ltb b.0 lo || ltb hi b.1 || ltb b.1 b.0
    then err bad_schedule
    else ok (record { start = b.0; end = b.1; step = q.1 })

abbrev pub add_range : Range → List ℕ → List ℕ
add_range r out = fill (suc r.end) r.start r.end r.step out

unfoldable pub parse_parts : ℕ → ℕ → List (List ℕ) → List ℕ → Result (List ℕ)
unfolding parse_part fill
parse_parts lo hi [] out = ok out
parse_parts lo hi (p ∷ ps) out = parse_part lo hi p >>= λ r. parse_parts lo hi ps (add_range r out)

unfoldable pub parse_field : List ℕ → ℕ → ℕ → Result (List ℕ)
unfolding parse_parts split
parse_field field lo hi = parse_parts lo hi (split field b',') []
