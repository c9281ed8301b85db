-- ===== src/Cron/Field/Members.antt =====
-- Which numbers a field of a schedule expression stands for (honker-core/src/cron.rs, `parse_field`).
use native.Mathlib.Nat.{mod-eq-sub-mod, mod-eq_of_lt}
use honker.Cron.Field.{member, insert_into, saturating_add, u32_max, fill}
use honker.Base.{
  ℕ, suc, ◌-◌, ◌%◌, ◌≤◌, ◌<◌, ◌≡◌, refl, Bool, ◌&&◌, ◌||◌, List, [], ◌∷◌, arith, ◌==◌, leb, zero,
  ◌+◌, ap, ◌∙◌, inl, inr, Bool-cases, if◌then◌else◌,
}

-- Each element is at least `b`, and larger than the one before.
abbrev pub Rising : ℕ → List ℕ → Type 0
Rising b [] = Unit
Rising b (x ∷ xs) = (b ≤ x) × Rising (suc x) xs

insert_into-Rising : (b v : ℕ) (xs : List ℕ) → b ≤ v → Rising b xs → Rising b (insert_into v xs)
unfolding insert_into
insert_into-Rising b v [] h r = (h, tt)
insert_into-Rising b v (x ∷ xs) h r = ground (arith, insert_into-Rising (suc x) v xs)

member-insert_into : (v x : ℕ) (xs : List ℕ) → member (insert_into v xs) x ≡ (x == v || member xs x)
unfolding insert_into
member-insert_into v x [] = refl
member-insert_into v x (y ∷ ys) = ground (arith, member-insert_into v x ys)

-- The numbers `start`, `start + step`, `start + 2 * step`, ... up to `end`.
abbrev pub in_range : ℕ → ℕ → ℕ → ℕ → Bool
in_range start end step x = leb start x && leb x end && (x - start) % step == 0

next_in_range :
    (v end step x : ℕ)
    → 0 < step
    → v ≤ end
    → end < u32_max
    → in_range v end step x ≡ (x == v || in_range (saturating_add v step) end step x)
next_in_range v end step x s h e = elim (Bool-cases (leb step (x - v))) [
  | inl far ↦
      let shift : (x - v) % step ≡ (x - v - step) % step = mod-eq-sub-mod (ground (arith, far)) in
      let rest : x - v - step ≡ x - (v + step) = omega arith in
      ground (arith, far, shift ∙ ap (λ k. k % step) rest)
  | inr near ↦
      let small : (x - v) % step ≡ x - v = mod-eq_of_lt (ground (arith, near)) in
      ground (arith, near, small)
]

fill_step :
    (rounds v end step : ℕ) (out : List ℕ)
    → fill (suc rounds) v end step out ≡ (
        if leb v end then fill rounds (saturating_add v step) end step (insert_into v out) else out)
unfolding fill
fill_step rounds v end step out = ground arith

-- The loop adds the numbers of the range that are still to come, and no other.
pub member-fill :
    (rounds v end step x : ℕ) (out : List ℕ)
    → 0 < step
    → end < u32_max
    → end < v + rounds
    → member (fill rounds v end step out) x ≡ (member out x || in_range v end step x)
member-fill zero v end step x out s e r = unfold fill in ground (arith, r)
member-fill (suc rounds) v end step x out s e r = elim (Bool-cases (leb v end)) [
  | inl h ↦
      rw (fill_step rounds v end step out, h)
        (ground (
          arith,
          member-fill rounds (saturating_add v step) end step x (insert_into v out) s e
              (ground (arith, s, e, r)),
          member-insert_into v x out,
          next_in_range v end step x s (ground (arith, h)) e,
        ))
  | inr h ↦ ground (arith, fill_step rounds v end step out, h)
]

pub fill-Rising :
    (rounds v end step : ℕ) (out : List ℕ) → Rising 0 out → Rising 0 (fill rounds v end step out)
fill-Rising zero v end step out h = unfold fill in h
fill-Rising (suc rounds) v end step out h = elim (Bool-cases (leb v end)) [
  | inl k ↦
      rw (fill_step rounds v end step out, k)
        (fill-Rising rounds (saturating_add v step) end step (insert_into v out)
          (insert_into-Rising 0 v out (omega arith) h))
  | inr k ↦ rw (fill_step rounds v end step out, k) h
]
