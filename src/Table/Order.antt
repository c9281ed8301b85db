-- ===== src/Table/Order.antt =====
-- ORDER BY with LIMIT over a total order.
use honker.Table.{insert, limit, order_by}
use honker.Base.Int.{ℤ, negsuc, pos}
use honker.Base.{
  ℕ, zero, suc, ◌≡◌, refl, sym, ap, ◌∙◌, Bool, true, false, List, [], ◌∷◌, ◌++◌, arith, take,
}

pub record TotalOrder {ℓ} {A : Type ℓ} (le : A → A → Bool) : Type ℓ where
  pub total : (x y : A) → le x y ≡ false → le y x ≡ true
  pub trans : (x y z : A) → le x y ≡ true → le y z ≡ true → le x z ≡ true
  pub antisym : (x y : A) → le x y ≡ true → le y x ≡ true → x ≡ y

module _ {ℓ} {A : Type ℓ} (le : A → A → Bool) (o : TotalOrder le) where
  -- inserts every row of a list
  insert_all : List A → List A → List A
  insert_all [] l = l
  insert_all (x ∷ xs) l = insert le x (insert_all xs l)

  insert_comm : (x y : A) (l : List A) → insert le x (insert le y l) ≡ insert le y (insert le x l)
  unfolding insert
  insert_comm x y [] = ground (arith, o.total x y, o.antisym x y)
  insert_comm x y (z ∷ l) = ground (
    arith,
    insert_comm x y l,
    o.total x y,
    o.antisym x y,
    o.trans x y z,
    o.trans y x z,
    o.total x z,
    o.total y z,
    o.trans x z y,
    o.trans y z x,
  )

  insert-insert_all :
      (x : A) (ys l : List A) → insert le x (insert_all ys l) ≡ insert_all ys (insert le x l)
  unfolding insert_all
  insert-insert_all x [] l = refl
  insert-insert_all x (y ∷ ys) l =
      insert_comm x y (insert_all ys l) ∙ ap (insert le y) (insert-insert_all x ys l)

  order_by-append : (xs ys : List A) → order_by le (xs ++ ys) ≡ insert_all ys (order_by le xs)
  unfolding order_by insert_all
  order_by-append [] [] = refl
  order_by-append [] (y ∷ ys) = ap (insert le y) (order_by-append [] ys)
  order_by-append (x ∷ xs) ys =
      ap (insert le x) (order_by-append xs ys) ∙ insert-insert_all x ys (order_by le xs)

  take-insert :
      (n : ℕ) (x : A) (l : List A) → take n (insert le x l) ≡ take n (insert le x (take n l))
  unfolding insert
  take-insert zero x l = refl
  take-insert (suc n) x [] = refl
  take-insert (suc zero) x (y ∷ l) = ground arith
  take-insert (suc (suc n)) x (y ∷ l) = ground (arith, take-insert (suc n) x l, take-take n l)
    where
      take-take : (n : ℕ) (l : List A) → take n (take (suc n) l) ≡ take n l
      take-take zero l = refl
      take-take (suc n) [] = refl
      take-take (suc n) (x ∷ l) = ap (◌∷◌ x) (take-take n l)

  take-insert_all :
      (n : ℕ) (xs l : List A) → take n (insert_all xs l) ≡ take n (insert_all xs (take n l))
  unfolding insert_all
  take-insert_all n [] l = take_idem n l
    where
      take_idem : (n : ℕ) (l : List A) → take n l ≡ take n (take n l)
      take_idem zero l = refl
      take_idem (suc n) [] = refl
      take_idem (suc n) (x ∷ l) = ap (◌∷◌ x) (take_idem n l)
  take-insert_all n (x ∷ xs) l =
      take-insert n x (insert_all xs l)
      ∙ ap (λ t. take n (insert le x t)) (take-insert_all n xs l)
      ∙ sym (take-insert n x (insert_all xs (take n l)))

  -- Each row may stand before the next.
  abbrev IsOrdered : List A → Type 0
  IsOrdered [] = Unit
  IsOrdered (x ∷ []) = Unit
  IsOrdered (x ∷ y ∷ l) = (le x y ≡ true) × IsOrdered (y ∷ l)

  insert-IsOrdered : (x : A) (l : List A) → IsOrdered l → IsOrdered (insert le x l)
  unfolding insert
  insert-IsOrdered x [] h = tt
  insert-IsOrdered x (y ∷ []) h = ground (arith, o.total x y)
  insert-IsOrdered x (y ∷ z ∷ l) h = ground (arith, o.total x y, insert-IsOrdered x (z ∷ l) h.1)

  order_by-IsOrdered : (l : List A) → IsOrdered (order_by le l)
  unfolding order_by
  order_by-IsOrdered [] = tt
  order_by-IsOrdered (x ∷ l) = insert-IsOrdered x (order_by le l) (order_by-IsOrdered l)

  take-IsOrdered : (n : ℕ) (l : List A) → IsOrdered l → IsOrdered (take n l)
  take-IsOrdered zero l h = tt
  take-IsOrdered (suc n) [] h = tt
  take-IsOrdered (suc zero) (x ∷ []) h = tt
  take-IsOrdered (suc (suc n)) (x ∷ []) h = tt
  take-IsOrdered (suc zero) (x ∷ y ∷ l) h = tt
  take-IsOrdered (suc (suc n)) (x ∷ y ∷ l) h = (h.0, take-IsOrdered (suc n) (y ∷ l) h.1)

  order_by_of_IsOrdered : (l : List A) → IsOrdered l → order_by le l ≡ l
  unfolding order_by insert
  order_by_of_IsOrdered [] h = refl
  order_by_of_IsOrdered (x ∷ []) h = refl
  order_by_of_IsOrdered (x ∷ y ∷ l) h = ground (arith, order_by_of_IsOrdered (y ∷ l) h.1)

  -- Ordering and cutting one part first changes nothing in what is ordered and cut at the end.
  pub limit_part :
      (n : ℤ) (xs ys : List A)
      → limit n (order_by le (limit n (order_by le xs) ++ ys)) ≡ limit n (order_by le (xs ++ ys))
  limit_part (pos n) xs ys =
      ap (take n) (order_by-append (take n (order_by le xs)) ys)
      ∙ ap (λ t. take n (insert_all ys t))
          (order_by_of_IsOrdered (take n (order_by le xs))
            (take-IsOrdered n (order_by le xs) (order_by-IsOrdered xs)))
      ∙ sym (take-insert_all n ys (order_by le xs))
      ∙ ap (take n) (sym (order_by-append xs ys))
  limit_part (negsuc k) xs ys =
      order_by-append (order_by le xs) ys
      ∙ ap (insert_all ys) (order_by_of_IsOrdered (order_by le xs) (order_by-IsOrdered xs))
      ∙ sym (order_by-append xs ys)

  -- A row may be put in anywhere.
  pub order_by_middle :
      (xs : List A) (y : A) (ys : List A)
      → order_by le (xs ++ y ∷ ys) ≡ insert le y (order_by le (xs ++ ys))
  unfolding insert_all
  order_by_middle xs y ys =
      order_by-append xs (y ∷ ys) ∙ ap (insert le y) (sym (order_by-append xs ys))
