-- ===== src/Cron/Expr/Interval.antt =====
-- The seconds of an interval expression (honker-core/src/cron.rs, `parse_every_interval`).
use native.Mathlib.Nat.{mul-pos}
use honker.Cron.Expr.{parse_every_interval, unit_seconds, take_digits, drop_digits, checked_mul}
use honker.Action.{ok}
use honker.Base.Int.{i64_max}
use honker.Cron.Text.{is_ascii_digit, unsigned}
use honker.Cron.Field.{or_bad, positive}
use honker.Cron.Field.Grammar.{>>=-ok}
use honker.Base.{
  ℕ, ◌*◌, ◌≤◌, ◌<◌, ◌≡◌, refl, sym, ap, ◌∙◌, subst, inl, inr, Option, none, some, List, [], ◌∷◌,
  ◌++◌, arith, Bool-cases,
}

unit_positive : (text : List ℕ) (mult : ℕ) → unit_seconds text ≡ ok mult → 0 < mult
unit_positive [] mult h = absurd (ground (arith, h))
unit_positive (c ∷ []) mult h = ground (arith, h)
unit_positive (c ∷ d ∷ r) mult h = absurd (ground (arith, h))

take_digits-drop_digits : (s : List ℕ) → take_digits s ++ drop_digits s ≡ s
take_digits-drop_digits [] = refl
take_digits-drop_digits (c ∷ s) = elim (Bool-cases (is_ascii_digit c)) [
  | inl e ↦ rw e (ap (λ r. c ∷ r) (take_digits-drop_digits s))
  | inr e ↦ rw e refl
]

-- An interval that is read is digits and then one unit; its seconds are their product, which is
-- positive and fits in an `i64`.
pub parse_every_interval_lem :
    (body : List ℕ) (s : ℕ)
    → parse_every_interval body ≡ ok s
    → (digits unit : List ℕ) × (count mult : ℕ) × (body ≡ digits ++ unit)
      × (unsigned i64_max digits ≡ some count)
      × (unit_seconds unit ≡ ok mult)
      × (s ≡ count * mult)
      × (0 < s)
      × (s ≤ i64_max)
unfolding parse_every_interval
parse_every_interval_lem body s h =
    let (n, a, h₁) = >>=-ok (or_bad (unsigned i64_max (take_digits body))) _ h in
    let (count, b, h₂) = >>=-ok (positive n) _ h₁ in
    let (mult, c, h₃) = >>=-ok (unit_seconds (drop_digits body)) _ h₂ in
    let product : (s ≡ count * mult) × (s ≤ i64_max) = checked count mult h₃ in
    let number = read (unsigned i64_max (take_digits body)) n a in
    let same : n ≡ count = ground (arith, b) in
    let above : 0 < count = ground (arith, b) in
    (
      take_digits body,
      drop_digits body,
      count,
      mult,
      sym (take_digits-drop_digits body),
      number ∙ ap some same,
      c,
      product.0,
      subst (λ k. 0 < k) (sym product.0) (mul-pos above (unit_positive (drop_digits body) mult c)),
      product.1,
    )
  where
    read : {A : Type 0} (o : Option A) (x : A) → or_bad o ≡ ok x → o ≡ some x
    read none x k = absurd (ground (arith, k))
    read (some y) x k = let same : y ≡ x = ground (arith, k) in ap some same

    checked : (x y : ℕ) → checked_mul x y ≡ ok s → (s ≡ x * y) × (s ≤ i64_max)
    checked x y k = ground (arith, k)
