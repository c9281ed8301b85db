-- ===== src/Queue/Pick.antt =====
-- Which rows CLAIM_SQL takes (honker-core/src/honker_ops.rs).
use honker.Table.{select, order_by, contains, count_if, limit}
use honker.Queue.Claim.{claim_order, key, Key, id_in, claim_keys, claim_ids}
use honker.Queue.Rows.{
  Row, is_processing, unexpired, is_lapsed, is_pending, before, is_due, has_attempts, has_id,
}
use honker.Base.Int.{leb_ℤ, eq_of_parts, ℤ, ◌<ℤ◌, ◌≤ℤ◌}
use honker.Table.Order.{TotalOrder, order_by_middle, limit_part}
use honker.Base.{
  String, ◌≡◌, refl, Bool, ◌&&◌, ◌||◌, List, [], ◌∷◌, ◌++◌, map, arith, str_eq, ◌≤◌, ◌⊎◌, inl, inr,
  true, ℕ, ◌<◌, ap, ◌∙◌, false, not, ◌==◌, All,
}
use honker.Table.Counts.{
  count_if-order_by, count_if-limit, count_if_split, count_if-map, contains→count,
  count_if-select_and,
}

-- What `claim_order` decides, on numbers.
abbrev Precedes : Key → Key → Type 0
Precedes a b =
    (b.priority <ℤ a.priority)
    ⊎ (a.priority ≤ℤ b.priority)
      × (b.priority ≤ℤ a.priority)
      × ((a.run_at <ℤ b.run_at) ⊎ (a.run_at ≤ℤ b.run_at) × (b.run_at ≤ℤ a.run_at) × (a.id ≤ b.id))

claim_order→Precedes : (a b : Key) → claim_order a b ≡ true → Precedes a b
unfolding claim_order
claim_order→Precedes a b h = ground arith

Precedes→claim_order : (a b : Key) → Precedes a b → claim_order a b ≡ true
unfolding claim_order
Precedes→claim_order a b (inl h) = ground arith
Precedes→claim_order a b (inr (p, q, inl h)) = ground arith
Precedes→claim_order a b (inr (p, q, inr h)) = ground arith

Precedes-trans : (a b c : Key) → Precedes a b → Precedes b c → Precedes a c
Precedes-trans a b c (inl h) (inl k) = inl (omega arith)
Precedes-trans a b c (inl h) (inr k) = inl (omega arith)
Precedes-trans a b c (inr h) (inl k) = inl (omega arith)
Precedes-trans a b c (inr (p, q, inl h)) (inr (p', q', inl k)) =
    inr (omega arith, omega arith, inl (omega arith))
Precedes-trans a b c (inr (p, q, inl h)) (inr (p', q', inr k)) =
    inr (omega arith, omega arith, inl (omega arith))
Precedes-trans a b c (inr (p, q, inr h)) (inr (p', q', inl k)) =
    inr (omega arith, omega arith, inl (omega arith))
Precedes-trans a b c (inr (p, q, inr h)) (inr (p', q', inr k)) =
    inr (omega arith, omega arith, inr (omega arith))

Precedes-antisym : (a b : Key) → Precedes a b → Precedes b a → a ≡ b
Precedes-antisym a b h k =
    ground (arith, ids, eq_of_parts a.priority b.priority, eq_of_parts a.run_at b.run_at)
  where
    ids :
        (a.id ≡ b.id)
        × (a.run_at ≤ℤ b.run_at)
        × (b.run_at ≤ℤ a.run_at)
        × (a.priority ≤ℤ b.priority)
        × (b.priority ≤ℤ a.priority)
    ids = omega arith

claim_order-TotalOrder : TotalOrder claim_order
claim_order-TotalOrder = record {
  total = λ x y h. unfold claim_order in ground arith;
  trans = λ x y z p q.
      Precedes→claim_order x z
        (Precedes-trans x y z (claim_order→Precedes x y p) (claim_order→Precedes y z q));
  antisym =
      λ x y p q. Precedes-antisym x y (claim_order→Precedes x y p) (claim_order→Precedes y x q);
}

-- What the documentation of `claim_batch` says of a row that it may take, in one condition.
unfoldable pub is_claimable : String → ℤ → Row → Bool
is_claimable queue now r =
    str_eq r.queue queue
    && has_attempts r
    && unexpired r.expires_at now
    && (is_pending r.state && leb_ℤ r.run_at now
        || is_processing r.state && before r.claim_expires_at now)

is_claimable_arms :
    (queue : String) (now : ℤ) (r : Row)
    → (is_claimable queue now r ≡ (is_due queue now r || is_lapsed queue now r))
      × ((is_due queue now r && is_lapsed queue now r) ≡ false)
unfolding is_claimable is_due is_lapsed
is_claimable_arms queue now r = ground arith

order_by_arms :
    (queue : String) (now : ℤ) (live : List Row)
    → order_by claim_order
        (map key (select (is_due queue now) live) ++ map key (select (is_lapsed queue now) live))
      ≡ order_by claim_order (map key (select (is_claimable queue now) live))
unfolding order_by
order_by_arms queue now [] = refl
order_by_arms queue now (r ∷ rs) = ground (
  arith,
  is_claimable_arms queue now r,
  order_by_arms queue now rs,
  order_by_middle claim_order claim_order-TotalOrder (map key (select (is_due queue now) rs))
      (key r) (map key (select (is_lapsed queue now) rs)),
)

-- The two arms of the claim, the first limited on its own, take the rows that one query would: the
-- first `n` of all claimable rows by priority, then `run_at`, then id.
pub claim_keys-eq-first :
    (queue : String) (n now : ℤ) (live : List Row)
    → claim_keys queue n now live
      ≡ limit n (order_by claim_order (map key (select (is_claimable queue now) live)))
unfolding claim_keys
claim_keys-eq-first queue n now live =
    limit_part claim_order claim_order-TotalOrder n (map key (select (is_due queue now) live))
      (map key (select (is_lapsed queue now) live))
    ∙ ap (limit n) (order_by_arms queue now live)

-- No two rows have one id.
abbrev pub IsDistinct : List Row → Type 0
IsDistinct live = (i : ℕ) → count_if (has_id i) live ≤ 1

-- An id that the claim takes is that of a claimable row.
pub claim_ids-claimable :
    (queue : String) (n now : ℤ) (live : List Row) (i : ℕ)
    → contains (claim_ids queue n now live) i ≡ true
    → 0 < count_if (λ r. has_id i r && is_claimable queue now r) live
unfolding claim_ids
claim_ids-claimable queue n now live i h =
    let rows = select (is_claimable queue now) live in
    let c : Key → Bool = λ k. k.id == i in
    omega (
      arith,
      contains→count (λ (k : Key). k.id) i (claim_keys queue n now live) h,
      ap (count_if c) (claim_keys-eq-first queue n now live),
      count_if-limit c n (order_by claim_order (map key rows)),
      count_if-order_by c claim_order (map key rows),
      count_if-map c key rows,
      count_if-select_and (has_id i) (is_claimable queue now) live,
    )

-- Where each id that `chosen` takes names only rows that satisfy `p`, so does each row it takes.
pub select_sound :
    (chosen p : Row → Bool) (xs : List Row)
    → ((r : Row) → chosen r ≡ true → count_if (λ s. has_id r.id s && not (p s)) xs ≡ 0)
    → All (λ r. p r ≡ true) (select chosen xs)
select_sound chosen p [] h = tt
select_sound chosen p (x ∷ xs) h =
    ground (arith, h x, select_sound chosen p xs (λ r e. omega (arith, h r e)))

-- Where ids are distinct, the claim takes claimable rows only.
pub claim_takes_claimable :
    (queue : String) (n now : ℤ) (live : List Row)
    → IsDistinct live
    → All (λ r. is_claimable queue now r ≡ true) (select (id_in (claim_ids queue n now live)) live)
claim_takes_claimable queue n now live distinct =
    select_sound (id_in (claim_ids queue n now live)) (is_claimable queue now) live λ r e. omega (
      arith,
      claim_ids-claimable queue n now live r.id e,
      count_if_split (has_id r.id) (is_claimable queue now) live,
      distinct r.id,
    )
