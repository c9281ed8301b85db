-- ===== src/Table/Counts.antt =====
-- How many rows of a table satisfy a condition, before and after a statement.
use honker.Table.{
  limit, contains, select, order_by, count_if-select, insert, reject, count_if, update,
}
use honker.Base.Int.{negsuc, pos, ℤ}
use honker.Base.{
  ℕ, zero, suc, ◌+◌, ◌≤◌, ◌<◌, ◌≡◌, refl, Bool, true, not, ◌&&◌, List, [], ◌∷◌, map, arith, ◌==◌,
  if◌then◌else◌, take, length, All, All-imp, false,
}

module _ {ℓ} {A : Type ℓ} (c : A → Bool) where
  pub count_if-insert :
      (le : A → A → Bool) (x : A) (xs : List A)
      → count_if c (insert le x xs) ≡ (if c x then 1 else 0) + count_if c xs
  unfolding insert
  count_if-insert le x [] = refl
  count_if-insert le x (y ∷ ys) = ground (arith, count_if-insert le x ys)

  -- Ordering loses nothing and adds nothing.
  pub count_if-order_by :
      (le : A → A → Bool) (xs : List A) → count_if c (order_by le xs) ≡ count_if c xs
  unfolding order_by
  count_if-order_by le [] = refl
  count_if-order_by le (x ∷ xs) =
      omega (arith, count_if-insert le x (order_by le xs), count_if-order_by le xs)

  count_if-take : (n : ℕ) (xs : List A) → count_if c (take n xs) ≤ count_if c xs
  count_if-take zero xs = omega arith
  count_if-take (suc n) [] = omega arith
  count_if-take (suc n) (x ∷ xs) = omega (arith, count_if-take n xs)

  pub count_if-limit : (n : ℤ) (xs : List A) → count_if c (limit n xs) ≤ count_if c xs
  count_if-limit (pos n) xs = count_if-take n xs
  count_if-limit (negsuc k) xs = omega arith

  pub count_if-reject-le : (p : A → Bool) (xs : List A) → count_if c (reject p xs) ≤ count_if c xs
  count_if-reject-le p xs = omega (arith, count_if-select c p xs)

  pub count_if-update-le :
      (p : A → Bool) (f : A → A)
      → ((x : A) → c (f x) ≡ true → c x ≡ true)
      → (xs : List A) → count_if c (update p f xs) ≤ count_if c xs
  count_if-update-le p f back [] = omega arith
  count_if-update-le p f back (x ∷ xs) = ground (arith, back x, count_if-update-le p f back xs)

  pub count_if_imp :
      (d : A → Bool)
      → ((x : A) → c x ≡ true → d x ≡ true)
      → (xs : List A) → count_if c xs ≤ count_if d xs
  count_if_imp d f [] = omega arith
  count_if_imp d f (x ∷ xs) = ground (arith, f x, count_if_imp d f xs)

  pub count_if_split :
      (d : A → Bool) (xs : List A)
      → count_if (λ x. c x && d x) xs + count_if (λ x. c x && not (d x)) xs ≡ count_if c xs
  count_if_split d [] = omega arith
  count_if_split d (x ∷ xs) = ground (arith, count_if_split d xs)

  pub count_if-select_and :
      (p : A → Bool) (xs : List A) → count_if c (select p xs) ≡ count_if (λ x. c x && p x) xs
  count_if-select_and p [] = refl
  count_if-select_and p (x ∷ xs) = ground (arith, count_if-select_and p xs)

pub count_if-map {ℓ κ} :
    {A : Type ℓ} {B : Type κ} (c : B → Bool) (f : A → B) (xs : List A)
    → count_if c (map f xs) ≡ count_if (λ x. c (f x)) xs
count_if-map c f [] = refl
count_if-map c f (x ∷ xs) = ground (arith, count_if-map c f xs)

-- An id of a selected list comes from a row that has it.
pub contains→count {ℓ} :
    {A : Type ℓ} (f : A → ℕ) (i : ℕ) (xs : List A)
    → contains (map f xs) i ≡ true
    → 0 < count_if (λ x. f x == i) xs
contains→count f i [] h = cc
contains→count f i (x ∷ xs) h = ground (arith, contains→count f i xs)

pub count→contains {ℓ} :
    {A : Type ℓ} (f : A → ℕ) (i : ℕ) (xs : List A)
    → 0 < count_if (λ x. f x == i) xs
    → contains (map f xs) i ≡ true
count→contains f i [] h = absurd (omega arith)
count→contains f i (x ∷ xs) h = ground (arith, count→contains f i xs)

-- An update that leaves the condition as it is on the rows that it changes.
pub count_if-update_selected {ℓ ι} :
    {A : Type ℓ} (c : A → Bool) (Q : A → Type ι) (p : A → Bool) (f : A → A)
    → ((x : A) → Q x → c (f x) ≡ c x)
    → (xs : List A) → All Q (select p xs)
    → count_if c (update p f xs) ≡ count_if c xs
count_if-update_selected c Q p f same [] q = refl
count_if-update_selected c Q p f same (x ∷ xs) q =
    ground (arith, same x, count_if-update_selected c Q p f same xs)

-- Each selected row is one of the table that satisfies what the selected rows do.
pub selected_count {ℓ} :
    {A : Type ℓ} (alike : A → A → Bool) (P p : A → Bool)
    → ((x : A) → alike x x ≡ true)
    → (xs : List A) → All (λ x. P x ≡ true) (select p xs)
    → All (λ x. 0 < count_if (λ y. alike x y && P y) xs) (select p xs)
selected_count alike P p self [] h = tt
selected_count {A} alike P p self (x ∷ xs) h =
    let Seen : List A → A → Type 0 = λ ys y. 0 < count_if (λ z. alike y z && P z) ys in
    ground (
      arith,
      self x,
      selected_count alike P p self xs,
      All-imp (Seen xs) (Seen (x ∷ xs)) (λ y k. omega arith) (select p xs),
    )

pub All-map {ℓ κ ι} :
    {A : Type ℓ} {B : Type κ} (P : B → Type ι) (f : A → B) (xs : List A)
    → All (λ x. P (f x)) xs
    → All P (map f xs)
All-map P f [] h = tt
All-map P f (x ∷ xs) h = (h.0, All-map P f xs h.1)

pub length-select {ℓ} :
    {A : Type ℓ} (p : A → Bool) (xs : List A) → length (select p xs) ≡ count_if p xs
length-select p [] = refl
length-select p (x ∷ xs) = ground (arith, length-select p xs)

-- Each row that an update changes is in the table after it, changed.
pub updated_count {ℓ} :
    {A : Type ℓ} (is_new : A → A → Bool) (p : A → Bool) (f : A → A)
    → ((x : A) → is_new x (f x) ≡ true)
    → (xs : List A) → All (λ x. 0 < count_if (is_new x) (update p f xs)) (select p xs)
updated_count is_new p f made [] = tt
updated_count {A} is_new p f made (x ∷ xs) = split (p x) (updated_count is_new p f made xs)
  where
    Seen : List A → A → Type 0
    Seen ys y = 0 < count_if (is_new y) ys

    split :
        (b : Bool)
        → All (Seen (update p f xs)) (select p xs)
        → All
            (Seen ((if b then f x else x) ∷ update p f xs))
            (if b then x ∷ select p xs else select p xs)
    split true rest = (ground (arith, made x), All-imp _ _ (λ y k. omega arith) (select p xs) rest)
    split false rest = All-imp _ _ (λ y k. omega arith) (select p xs) rest

-- Two conditions that exclude one another and both imply a third.
pub count_if_disjoint {ℓ} :
    {A : Type ℓ} (a b c : A → Bool)
    → ((x : A) → a x ≡ true → c x ≡ true)
    → ((x : A) → b x ≡ true → c x ≡ true)
    → ((x : A) → a x ≡ true → b x ≡ true → ⊥)
    → (xs : List A) → count_if a xs + count_if b xs ≤ count_if c xs
count_if_disjoint a b c f g no_both [] = omega arith
count_if_disjoint a b c f g no_both (x ∷ xs) =
    ground (arith, f x, g x, no_both x, count_if_disjoint a b c f g no_both xs)

-- A statement whose condition no row satisfies does nothing.
module _ {ℓ} {A : Type ℓ} (p : A → Bool) where
  pub reject_none : (xs : List A) → count_if p xs ≡ 0 → reject p xs ≡ xs
  reject_none [] h = refl
  reject_none (x ∷ xs) h = ground (arith, reject_none xs)

  pub update_none : (f : A → A) (xs : List A) → count_if p xs ≡ 0 → update p f xs ≡ xs
  update_none f [] h = refl
  update_none f (x ∷ xs) h = ground (arith, update_none f xs)

  pub select_none : (xs : List A) → count_if p xs ≡ 0 → select p xs ≡ []
  select_none [] h = refl
  select_none (x ∷ xs) h = ground (arith, select_none xs)

pub count_if-update_grows {ℓ ι} :
    {A : Type ℓ} (c : A → Bool) (Q : A → Type ι) (p : A → Bool) (f : A → A)
    → ((x : A) → Q x → c x ≡ true → c (f x) ≡ true)
    → (xs : List A) → All Q (select p xs)
    → count_if c xs ≤ count_if c (update p f xs)
count_if-update_grows c Q p f keep [] q = omega arith
count_if-update_grows c Q p f keep (x ∷ xs) q =
    ground (arith, keep x, count_if-update_grows c Q p f keep xs)

count_if_false {ℓ ι} :
    {A : Type ℓ} (c : A → Bool) (Q : A → Type ι)
    → ((x : A) → Q x → c x ≡ true → ⊥)
    → (xs : List A) → All Q xs
    → count_if c xs ≡ 0
count_if_false c Q never [] q = refl
count_if_false c Q never (x ∷ xs) q = ground (arith, never x q.0, count_if_false c Q never xs q.1)

-- A DELETE of rows that do not satisfy the condition.
pub count_if-reject_other {ℓ ι} :
    {A : Type ℓ} (c : A → Bool) (Q : A → Type ι) (p : A → Bool)
    → ((x : A) → Q x → c x ≡ true → ⊥)
    → (xs : List A) → All Q (select p xs)
    → count_if c (reject p xs) ≡ count_if c xs
count_if-reject_other c Q p never xs q =
    omega (arith, count_if-select c p xs, count_if_false c Q never (select p xs) q)
