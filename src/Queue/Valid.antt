-- ===== src/Queue/Valid.antt =====
-- The invariant of the two job tables (honker-core/src/honker_ops.rs).
pub mod Steps
pub mod Calls
use honker.Table.{select, update, order_by, count_if, contains, limit}
use honker.Queue.Claim.{first_ids, by_deadline, id_in}
use honker.Queue.Pick.{IsDistinct, select_sound}
use honker.Queue.Rows.{tally, is_processing, Row, has_id, Jobs}
use honker.Base.Int.{pos, ◌≤ℤ◌, ◌<ℤ◌, ℤ}
use honker.Action.Keeps.{Preorder}
use honker.Table.Counts.{
  contains→count, count_if_split, count_if-order_by, count_if-select_and, count_if-limit,
}
use honker.Base.{
  ℕ, ◌≤◌, ◌<◌, ◌≡◌, refl, inl, inr, Bool, true, false, ◌&&◌, none, List, [], ◌∷◌, arith, Bool-cases,
  is_some, All,
}

pub record IsValidRow (r : Row) : Type 0 where
  -- a claim never takes a job past its budget
  pub budget : pos r.attempts ≤ℤ r.max_attempts
  -- a job that nobody works on has no stale claim on it, and an attempt left
  pub waiting :
      is_processing r.state ≡ false
      → (r.worker_id ≡ none)
        × (r.claim_expires_at ≡ none)
        × (r.claimed_at ≡ none)
        × (pos r.attempts <ℤ r.max_attempts)
  -- a job that is worked on has a worker, a lease and a start
  pub held :
      is_processing r.state ≡ true
      → (is_some r.worker_id ≡ true)
        × (is_some r.claim_expires_at ≡ true)
        × (is_some r.claimed_at ≡ true)

pub record IsValid (db : Jobs) : Type 0 where
  -- no id stands twice, in one table or across the two
  pub distinct : (i : ℕ) → tally i db ≤ 1
  -- the next id has never been used
  pub fresh : (i : ℕ) → db.next_id ≤ i → tally i db ≡ 0
  pub rows : All IsValidRow db.live

abbrev pub empty : Jobs
empty = record { live = []; dead = []; next_id = 1 }

pub empty-IsValid : IsValid empty
unfolding tally
empty-IsValid = record { distinct = λ i. omega arith; fresh = λ i h. refl; rows = tt }

-- What a call does to a valid database.
abbrev pub Preserves : Jobs → Jobs → Type 0
Preserves db db' = IsValid db → IsValid db'

pub Preserves-Preorder : Preorder Preserves
Preserves-Preorder = record { same = λ s v. v; trans = λ s t u f g v. g (f v) }

pub live-IsDistinct : (db : Jobs) → IsValid db → IsDistinct db.live
unfolding tally
live-IsDistinct db v i = omega (arith, v.distinct i)

-- A call that hands out no id and adds no job preserves the ids' part of the invariant.
pub shrink-IsValid :
    (db db' : Jobs)
    → db'.next_id ≡ db.next_id
    → ((i : ℕ) → tally i db' ≤ tally i db)
    → All IsValidRow db'.live
    → IsValid db
    → IsValid db'
shrink-IsValid db db' n t rows v = record {
  distinct = λ i. omega (arith, t i, v.distinct i);
  fresh = λ i h. omega (arith, t i, v.fresh i (omega (arith, n)));
  rows = rows;
}

-- An update changes the rows that it selects.
pub All-update_selected {ℓ κ ι} :
    {A : Type ℓ} (P : A → Type κ) (Q : A → Type ι) (p : A → Bool) (f : A → A)
    → ((x : A) → Q x → P x → P (f x))
    → (xs : List A) → All Q (select p xs)
    → All P xs
    → All P (update p f xs)
All-update_selected P Q p f keep [] q h = tt
All-update_selected P Q p f keep (x ∷ xs) q h =
    ground (arith, keep x, All-update_selected P Q p f keep xs)

-- An id that a query with ORDER BY and LIMIT returns is that of a row that it selects.
first_ids-selected :
    (p : Row → Bool) (deadline : Row → ℤ) (n : ℤ) (live : List Row) (i : ℕ)
    → contains (first_ids p deadline n live) i ≡ true
    → 0 < count_if (λ r. has_id i r && p r) live
unfolding first_ids
first_ids-selected p deadline n live i h = omega (
  arith,
  contains→count (λ (r : Row). r.id) i (limit n (order_by (by_deadline deadline) (select p live)))
      h,
  count_if-limit (has_id i) n (order_by (by_deadline deadline) (select p live)),
  count_if-order_by (has_id i) (by_deadline deadline) (select p live),
  count_if-select_and (has_id i) p live,
)

pub first_ids_sound :
    (p : Row → Bool) (deadline : Row → ℤ) (n : ℤ) (live : List Row)
    → IsDistinct live
    → All (λ r. p r ≡ true) (select (id_in (first_ids p deadline n live)) live)
first_ids_sound p deadline n live distinct =
    select_sound (id_in (first_ids p deadline n live)) p live λ r e. omega (
      arith,
      first_ids-selected p deadline n live r.id e,
      count_if_split (has_id r.id) p live,
      distinct r.id,
    )
