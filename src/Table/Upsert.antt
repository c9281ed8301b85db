-- ===== src/Table/Upsert.antt =====
-- Tables with a primary key: the row that has a key, and INSERT ... ON CONFLICT.
use honker.Table.{count_if, reject, update}
use honker.Base.{
  ◌≤◌, ◌<◌, ◌≡◌, refl, inl, inr, Bool, true, false, Option, none, some, List, [], ◌∷◌, arith,
  Bool-cases, if◌then◌else◌, ◌++◌,
}
use honker.Table.Counts.{count_if_imp}

module _ {ℓ} {A : Type ℓ} (p : A → Bool) where
  -- SELECT ... WHERE key, of which there is one row at most.
  abbrev pub find : List A → Option A
  find [] = none
  find (x ∷ xs) = let rest = find xs in if p x then some x else rest

  -- INSERT of `new`; the row that already has the key is set to `f` of itself if it satisfies `w`.
  abbrev pub upsert : A → (A → Bool) → (A → A) → List A → List A
  upsert new w f [] = new ∷ []
  upsert new w f (x ∷ xs) =
      let rest = x ∷ upsert new w f xs in if p x then (if w x then f x else x) ∷ xs else rest

  -- Whether the statement changed a row.
  abbrev pub writes : (A → Bool) → Option A → Bool
  writes w none = true
  writes w (some x) = w x

  abbrev pub upserted : A → (A → Bool) → (A → A) → Option A → A
  upserted new w f none = new
  upserted new w f (some x) = if w x then f x else x

module _ {ℓ} {A : Type ℓ} (p : A → Bool) (new : A) (w : A → Bool) (f : A → A) where
  -- The row that has the key after the statement.
  pub find-upsert :
      p new ≡ true
      → ((x : A) → p x ≡ true → p (f x) ≡ true)
      → (xs : List A) → find p (upsert p new w f xs) ≡ some (upserted p new w f (find p xs))
  find-upsert h k [] = ground (arith, h)
  find-upsert h k (x ∷ xs) = ground (arith, k x, find-upsert h k xs)

  -- Rows with another key are what they were.
  pub find-upsert_other :
      (q : A → Bool)
      → q new ≡ false
      → ((x : A) → p x ≡ true → (q x ≡ false) × (q (f x) ≡ false))
      → (xs : List A) → find q (upsert p new w f xs) ≡ find q xs
  find-upsert_other q h k [] = ground (arith, h)
  find-upsert_other q h k (x ∷ xs) = ground (arith, k x, find-upsert_other q h k xs)

module _ {ℓ} {A : Type ℓ} (q : A → Bool) where
  pub find-reject_other :
      (p : A → Bool)
      → ((x : A) → q x ≡ true → p x ≡ false)
      → (xs : List A) → find q (reject p xs) ≡ find q xs
  find-reject_other p h [] = refl
  find-reject_other p h (x ∷ xs) = ground (arith, h x, find-reject_other p h xs)

  pub find-update_other :
      (p : A → Bool) (f : A → A)
      → ((x : A) → q x ≡ true → p x ≡ false)
      → ((x : A) → q (f x) ≡ q x)
      → (xs : List A) → find q (update p f xs) ≡ find q xs
  find-update_other p f h k [] = refl
  find-update_other p f h k (x ∷ xs) = ground (arith, h x, k x, find-update_other p f h k xs)

  pub find-none : (xs : List A) → count_if q xs ≡ 0 → find q xs ≡ none
  find-none [] h = refl
  find-none (x ∷ xs) h = ground (arith, find-none xs)

  -- A row that has the key and is the only one is found.
  pub find_unique :
      (c : A → Bool)
      → ((x : A) → c x ≡ true → q x ≡ true)
      → (xs : List A) → 0 < count_if c xs
      → count_if q xs ≤ 1
      → (x : A) × (find q xs ≡ some x) × (c x ≡ true)
  find_unique c h [] g u = absurd (omega arith)
  find_unique c h (x ∷ xs) g u = elim (Bool-cases (c x)) [
    | inl e ↦ (x, ground (arith, h x), e)
    | inr e ↦
        let (y, d, k) = find_unique c h xs (ground arith) (ground arith) in
        (y, ground (arith, d, count_if_imp c q h xs), k)
  ]

  pub find-append :
      (xs ys : List A) → find q (xs ++ ys) ≡ elim (find q xs) [ none ↦ find q ys | some x ↦ some x ]
  find-append [] ys = refl
  find-append (x ∷ xs) ys = ground (arith, find-append xs ys)
