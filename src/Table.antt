-- ===== src/Table.antt =====
-- What the engine's SQL statements do to the rows of a table.
pub mod Order
pub mod Counts
pub mod Upsert
pub mod Keys
use honker.Base.{
  ℕ, ◌+◌, ◌≡◌, refl, Bool, true, false, ◌||◌, List, [], ◌∷◌, ◌++◌, arith, ◌==◌, if◌then◌else◌, take,
  All,
}
use honker.Base.Int.{ℤ, pos, negsuc}

module _ {ℓ} {A : Type ℓ} where
  -- The rows that a WHERE clause selects.
  abbrev pub select : (A → Bool) → List A → List A
  select p [] = []
  select p (x ∷ xs) = let rest = select p xs in if p x then x ∷ rest else rest

  -- The rows that a DELETE with this WHERE clause leaves.
  abbrev pub reject : (A → Bool) → List A → List A
  reject p [] = []
  reject p (x ∷ xs) = let rest = reject p xs in if p x then rest else x ∷ rest

  -- UPDATE ... SET f WHERE p.
  abbrev pub update : (A → Bool) → (A → A) → List A → List A
  update p f [] = []
  update p f (x ∷ xs) = (if p x then f x else x) ∷ update p f xs

  abbrev pub count_if : (A → Bool) → List A → ℕ
  count_if p [] = 0
  count_if p (x ∷ xs) = (if p x then 1 else 0) + count_if p xs

  -- LIMIT: a negative limit is none.
  abbrev pub limit : ℤ → List A → List A
  limit (pos n) xs = take n xs
  limit (negsuc _) xs = xs

  -- ORDER BY, by insertion.
  unfoldable pub insert : (A → A → Bool) → A → List A → List A
  insert le x [] = x ∷ []
  insert le x (y ∷ ys) = let rest = y ∷ insert le x ys in if le x y then x ∷ y ∷ ys else rest

  unfoldable pub order_by : (A → A → Bool) → List A → List A
  order_by le [] = []
  order_by le (x ∷ xs) = insert le x (order_by le xs)

-- id IN (ids)
abbrev pub contains : List ℕ → ℕ → Bool
contains [] i = false
contains (j ∷ js) i = i == j || contains js i

module _ {ℓ} {A : Type ℓ} (c : A → Bool) where
  pub count_if-append : (xs ys : List A) → count_if c (xs ++ ys) ≡ count_if c xs + count_if c ys
  count_if-append [] ys = omega arith
  count_if-append (x ∷ xs) ys = omega (arith, count_if-append xs ys)

  -- A DELETE takes each row out once: what it returns and what it leaves make up the table.
  pub count_if-select :
      (p : A → Bool) (xs : List A)
      → count_if c (select p xs) + count_if c (reject p xs) ≡ count_if c xs
  count_if-select p [] = omega arith
  count_if-select p (x ∷ xs) = ground (arith, count_if-select p xs)

  pub count_if-update :
      (p : A → Bool) (f : A → A)
      → ((x : A) → c (f x) ≡ c x)
      → (xs : List A) → count_if c (update p f xs) ≡ count_if c xs
  count_if-update p f same [] = refl
  count_if-update p f same (x ∷ xs) = ground (arith, same x, count_if-update p f same xs)

module _ {ℓ κ} {A : Type ℓ} (P : A → Type κ) where
  pub All-select : (p : A → Bool) (xs : List A) → All P xs → All P (select p xs)
  All-select p [] h = tt
  All-select p (x ∷ xs) h = ground (arith, All-select p xs h.1)

  pub All-reject : (p : A → Bool) (xs : List A) → All P xs → All P (reject p xs)
  All-reject p [] h = tt
  All-reject p (x ∷ xs) h = ground (arith, All-reject p xs h.1)

  pub All-update :
      (p : A → Bool) (f : A → A)
      → ((x : A) → p x ≡ true → P x → P (f x))
      → (xs : List A) → All P xs
      → All P (update p f xs)
  All-update p f keep [] h = tt
  All-update p f keep (x ∷ xs) h = ground (arith, keep x, All-update p f keep xs h.1)
