-- ===== src/Table/Keys.antt =====
-- Tables whose primary key stands once: what the statements keep of it.
use honker.Base.{
  Bool, ◌≤◌, ◌≡◌, ◌⊎◌, inl, inr, true, false, List, [], ◌∷◌, arith, Bool-cases, All, if◌then◌else◌,
}
use honker.Table.{count_if, reject, count_if-select}
use honker.Table.Upsert.{upsert}

module _ {ℓ} {A : Type ℓ} (q p : A → Bool) (new : A) (w : A → Bool) (f : A → A) where
  count-upsert_other :
      q new ≡ false
      → ((x : A) → p x ≡ true → q (f x) ≡ q x)
      → (xs : List A) → count_if q (upsert p new w f xs) ≡ count_if q xs
  count-upsert_other h k [] = ground (arith, h)
  count-upsert_other h k (x ∷ xs) = ground (arith, k x, count-upsert_other h k xs)

  count-upsert_own :
      q new ≡ true
      → ((x : A) → q x ≡ p x)
      → ((x : A) → p x ≡ true → q (f x) ≡ q x)
      → (xs : List A)
      → (count_if q (upsert p new w f xs) ≡ count_if q xs)
        ⊎ ((count_if q xs ≡ 0) × (count_if q (upsert p new w f xs) ≡ 1))
  count-upsert_own h a k [] = ground (arith, h)
  count-upsert_own h a k (x ∷ xs) = ground (arith, k x, a x, count-upsert_own h a k xs)

  -- A row that is inserted, or changed where it stands, keeps every key at one row.
  pub count-upsert-le :
      (q new ≡ true → (x : A) → q x ≡ p x)
      → ((x : A) → p x ≡ true → q (f x) ≡ q x)
      → (xs : List A) → count_if q xs ≤ 1
      → count_if q (upsert p new w f xs) ≤ 1
  count-upsert-le a k xs u = elim (Bool-cases (q new)) [
    | inl h ↦ omega (arith, u, count-upsert_own h (a h) k xs)
    | inr h ↦ omega (arith, u, count-upsert_other h k xs)
  ]

module _ {ℓ} {A : Type ℓ} (q p : A → Bool) where
  pub count-reject-le : (xs : List A) → count_if q (reject p xs) ≤ count_if q xs
  count-reject-le xs = omega (arith, count_if-select q p xs)

module _ {ℓ κ} {A : Type ℓ} (P : A → Type κ) where
  All-if : (b : Bool) (xs ys : List A) → All P xs → All P ys → All P (if b then xs else ys)
  All-if true xs ys h k = h
  All-if false xs ys h k = k

  if_held : (b : Bool) (x y : A) → P x → P y → P (if b then x else y)
  if_held true x y h k = h
  if_held false x y h k = k

  pub All-upsert :
      (p : A → Bool) (new : A) (w : A → Bool) (f : A → A)
      → P new
      → ((x : A) → P x → P (f x))
      → (xs : List A) → All P xs
      → All P (upsert p new w f xs)
  All-upsert p new w f n k [] h = (n, tt)
  All-upsert p new w f n k (x ∷ xs) h =
      All-if (p x) ((if w x then f x else x) ∷ xs) (x ∷ upsert p new w f xs)
        (if_held (w x) (f x) x (k x h.0) h.0, h.1) (h.0, All-upsert p new w f n k xs h.1)
