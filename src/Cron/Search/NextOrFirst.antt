-- ===== src/Cron/Search/NextOrFirst.antt =====
-- What `next_or_first` finds in the set of a field (honker-core/src/cron.rs).
use honker.Cron.Search.{next_or_first, or_first, first_from}
use honker.Action.{ok}
use honker.Cron.Field.{member}
use honker.Cron.Field.Meaning.{IsFieldSet}
use honker.Cron.Field.Members.{Rising}
use honker.Base.{
  ℕ, suc, ◌≤◌, ◌<◌, ◌≡◌, refl, inl, inr, true, false, none, some, List, [], ◌∷◌, arith, leb,
  Bool-cases, ap, ◌⊎◌, Option-cases, subst, ◌≢◌,
}

-- No number of the set is from `a` up to below `b`.
abbrev pub Skips : List ℕ → ℕ → ℕ → Type 0
Skips set a b = (x : ℕ) → a ≤ x → x < b → member set x ≡ false

-- `v` is the next number of the set.
pub record IsAhead (set : List ℕ) (current v : ℕ) : Type 0 where
  pub is_next : next_or_first set current ≡ ok (v, false)
  pub ahead : current < v
  pub skips : Skips set current v

-- There is no next number, and `v` is the first one.
pub record IsAround (set : List ℕ) (current v : ℕ) : Type 0 where
  pub is_next : next_or_first set current ≡ ok (v, true)
  pub none_left : (x : ℕ) → current ≤ x → member set x ≡ false
  pub skips : Skips set 0 v

below-Rising : (b x : ℕ) (xs : List ℕ) → Rising b xs → x < b → member xs x ≡ false
below-Rising b x [] r h = refl
below-Rising b x (y ∷ ys) r h = ground (arith, below-Rising (suc y) x ys)

first_from-none :
    (b current x : ℕ) (xs : List ℕ)
    → Rising b xs
    → first_from xs current ≡ none
    → current ≤ x
    → member xs x ≡ false
first_from-none b current x [] r h c = refl
first_from-none b current x (y ∷ ys) r h c = ground (arith, first_from-none (suc y) current x ys)

first_from-some :
    (b current v : ℕ) (xs : List ℕ)
    → Rising b xs
    → first_from xs current ≡ some v
    → (current ≤ v) × (member xs v ≡ true) × Skips xs current v
first_from-some b current v [] r h = absurd (ground (arith, h))
first_from-some b current v (y ∷ ys) r h = elim (Bool-cases (leb current y)) [
  | inl e ↦
      let same : y ≡ v = ground (arith, e, h) in
      (
        ground (arith, e, same),
        ground (arith, same),
        λ x a c. ground (arith, same, r, below-Rising (suc y) x ys),
      )
  | inr e ↦
      let (a, m, k) = first_from-some (suc y) current v ys r.1 (ground (arith, e, h)) in
      (a, ground (arith, m), λ x c d. ground (arith, e, k x c d))
]

-- The set of a field has a next number or a first one.
pub next_or_first_cases :
    (lo hi : ℕ) (set : List ℕ) (current : ℕ)
    → IsFieldSet lo hi set
    → member set current ≡ false
    → (v : ℕ) × (member set v ≡ true)
      × (lo ≤ v)
      × (v ≤ hi)
      × (IsAhead set current v ⊎ IsAround set current v)
unfolding next_or_first
next_or_first_cases lo hi [] current f out = absurd (omega (arith, f.nonempty))
next_or_first_cases lo hi (y ∷ ys) current f out =
    elim (Option-cases (first_from (y ∷ ys) current)) [
      | inl e ↦
          let m : member (y ∷ ys) y ≡ true = ground arith in
          let (a, b) = f.bounded y m in
          (
            y,
            m,
            a,
            b,
            inr (record {
              is_next = ap (or_first (y ∷ ys)) e;
              none_left = λ x c. first_from-none 0 current x (y ∷ ys) f.rising e c;
              skips = λ x a c. ground (arith, f.rising, below-Rising (suc y) x ys);
            }),
          )
      | inr (v, e) ↦
          let (a, m, k) = first_from-some 0 current v (y ∷ ys) f.rising e in
          let (l, h) = f.bounded v m in
          let other : v ≢ current =
            λ z. absurd (ground (arith, subst (λ k. member (y ∷ ys) k ≡ true) z m, out)) in
          (
            v,
            m,
            l,
            h,
            inl (record {
              is_next = ap (or_first (y ∷ ys)) e;
              ahead = omega (arith, a, other);
              skips = k;
            }),
          )
    ]
