-- ===== src/RateLimit/Bounds.antt =====
-- How many calls of `rate_limit_try` are granted in one window (honker-core/src/honker_ops.rs).
use text.Mathlib.TextPositions.{eq_refl}
use honker.RateLimit.{Window, window_of, below, counted, first_of, is_window, rate_limit_try}
use honker.Base.Int.{ℤ, pos, ◌+ℤ◌, ltb_ℤ, ◌<ℤ◌, eq_of_parts, leb_ℤ, eq_ℤ}
use honker.Action.{ok, err, Result}
use honker.Table.Upsert.{find-upsert, find, upserted, find-upsert_other, writes}
use honker.Base.{
  ℕ, ◌+◌, String, ◌≡◌, refl, Bool, false, ◌&&◌, none, some, List, [], ◌∷◌, arith, str_eq,
  if◌then◌else◌, ◌==◌, ap, ◌∙◌, true, ◌||◌, Option, eq_iff, suc, ◌≤◌, inl, inr, Bool-cases,
}
use honker.Queue.Claim.{key}

abbrev pub count_of : Option Window → ℤ
count_of none = pos 0
count_of (some w) = w.count

-- The count that the table has for a window; 0 without a row.
abbrev pub used : String → ℤ → List Window → ℤ
used name start windows = count_of (find (is_window name start) windows)

-- A call, for any name, limit and period, at any time.
pub record Try : Type 0 where
  pub name : String
  pub limit : ℤ
  pub per : ℤ
  pub now : ℤ

abbrev pub try_step : Try → List Window → List Window
try_step c windows = (rate_limit_try c.name c.limit c.per c.now windows).1

abbrev pub is_one : Result ℕ → Bool
is_one (ok n) = n == 1
is_one (err e) = false

-- Whether a call is granted in the window of `name` that starts at `start`.
abbrev pub granted_in : String → ℤ → Try → List Window → Bool
granted_in name start c windows =
    str_eq c.name name
    && eq_ℤ (window_of c.now c.per) start
    && is_one (rate_limit_try c.name c.limit c.per c.now windows).0

-- How many calls of a history are granted in that window.
unfoldable pub grants : String → ℤ → List Try → List Window → ℕ
grants name start [] windows = 0
grants name start (c ∷ cs) windows =
    (if granted_in name start c windows then 1 else 0) + grants name start cs (try_step c windows)

-- The table's row of a window before a call, and after it.
counts_up :
    (key : Window → Bool) (name : String) (start limit : ℤ) (o : Option Window)
    → pos 0 <ℤ limit
    → (writes key (below limit) o ≡ ltb_ℤ (count_of o) limit)
      × ((upserted key (first_of name start) (below limit) counted o).count
          ≡ (if ltb_ℤ (count_of o) limit then count_of o +ℤ pos 1 else count_of o))
unfolding ◌+ℤ◌
counts_up key name start limit none l = ground arith
counts_up key name start limit (some w) l = (refl, ground arith)

-- A call with a positive limit and a positive period is granted exactly when its window has been used
-- less often than the limit, and it is counted in its window exactly when it is granted.
pub rate_limit_try_lem :
    (name : String) (limit per now start : ℤ) (windows : List Window)
    → pos 0 <ℤ limit
    → pos 0 <ℤ per
    → window_of now per ≡ start
    → ((rate_limit_try name limit per now windows).0
        ≡ ok (if ltb_ℤ (used name start windows) limit then 1 else 0))
      × (used name start (rate_limit_try name limit per now windows).1 ≡ (
          if ltb_ℤ (used name start windows) limit
          then used name start windows +ℤ pos 1
          else used name start windows))
unfolding rate_limit_try
rate_limit_try_lem name limit per now start windows l p e =
    let key = is_window name start in
    let guard : (leb_ℤ limit (pos 0) || leb_ℤ per (pos 0)) ≡ false = ground arith in
    let (granted, after) = counts_up key name start limit (find key windows) l in
    rw (guard, e)
      (
        ap (λ b. ok (if b then 1 else 0)) granted,
        ap count_of (
              find-upsert key (first_of name start) (below limit) counted
                (ground (arith, eq_refl name)) (λ w h. h) windows)
            ∙ after,
      )

eq_ℤ→eq : (a b : ℤ) → eq_ℤ a b ≡ true → a ≡ b
eq_ℤ→eq a b h = eq_of_parts a b (ground arith)

-- A call for another window leaves the count alone.
used_other :
    (name : String) (start : ℤ) (c : Try) (windows : List Window)
    → (str_eq c.name name && eq_ℤ (window_of c.now c.per) start) ≡ false
    → used name start (try_step c windows) ≡ used name start windows
unfolding rate_limit_try
used_other name start c windows h =
    let from = window_of c.now c.per in
    ground (
      arith,
      ap count_of (
          find-upsert_other (is_window c.name from) (first_of c.name from) (below c.limit) counted
            (is_window name start) h
            (λ w k. ground (arith, eq_iff w.name c.name, eq_iff w.name name, eq_iff c.name name))
            windows),
    )

-- What one call of a history does to the count of a window: a grant adds one, and is given below the
-- call's limit only. Every other call leaves the count alone.
try_counts :
    (name : String) (start : ℤ) (c : Try) (windows : List Window) (g : Bool)
    → granted_in name start c windows ≡ g
    → (g ≡ true
        → (used name start windows <ℤ c.limit)
          × (used name start (try_step c windows) ≡ used name start windows +ℤ pos 1))
      × (g ≡ false → used name start (try_step c windows) ≡ used name start windows)
try_counts name start c windows g e =
    elim (Bool-cases (leb_ℤ c.limit (pos 0) || leb_ℤ c.per (pos 0))) [
      | inl bad ↦ refused bad
      | inr good ↦ elim (Bool-cases (str_eq c.name name && eq_ℤ (window_of c.now c.per) start)) [
        | inl here ↦
            let n : c.name ≡ name = (eq_iff c.name name).0 (ground arith) in
            let w : window_of c.now c.per ≡ start = eq_ℤ→eq _ _ (ground arith) in
            ground (
              arith,
              e,
              rate_limit_try_lem c.name c.limit c.per c.now start windows (ground arith)
                  (ground arith) w,
              ap (λ m. used m start windows) n,
              ap (λ m. used m start (try_step c windows)) n,
            )
        | inr there ↦ ground (arith, e, used_other name start c windows there)
      ]
    ]
  where
    refused :
        (leb_ℤ c.limit (pos 0) || leb_ℤ c.per (pos 0)) ≡ true
        → (g ≡ true
            → (used name start windows <ℤ c.limit)
              × (used name start (try_step c windows) ≡ used name start windows +ℤ pos 1))
          × (g ≡ false → used name start (try_step c windows) ≡ used name start windows)
    refused bad = unfold rate_limit_try in ground (arith, e, bad)

abbrev pub all_within : ℕ → List Try → Bool
all_within bound [] = true
all_within bound (c ∷ cs) = leb_ℤ c.limit (pos bound) && all_within bound cs

-- In a window that has been used `k` times, a history of calls whose limits are at most `bound`,
-- whatever names, periods and times they have, is granted at most the `bound - k` uses that are
-- left.
pub grants_bounded :
    (name : String) (start : ℤ) (bound k : ℕ) (cs : List Try) (windows : List Window)
    → used name start windows ≡ pos k
    → k ≤ bound
    → all_within bound cs ≡ true
    → k + grants name start cs windows ≤ bound
unfolding grants
grants_bounded name start bound k [] windows u h a = omega arith
grants_bounded name start bound k (c ∷ cs) windows u h a =
    elim (Bool-cases (granted_in name start c windows)) [
      | inl g ↦
          let (less, next) = (try_counts name start c windows true g).0 refl in
          let next_k : used name start (try_step c windows) ≡ pos (suc k) =
            next ∙ ap (λ (x : ℤ). x +ℤ pos 1) u ∙ add_one k in
          omega (
            arith,
            grants_bounded name start bound (suc k) cs (try_step c windows) next_k
                (room (used name start windows) c.limit u less (ground arith)) (ground arith),
            ap {B = ℕ} (λ (b : Bool). if b then 1 else 0) g,
          )
      | inr g ↦
          let same = (try_counts name start c windows false g).1 refl in
          omega (
            arith,
            grants_bounded name start bound k cs (try_step c windows) (same ∙ u) h (ground arith),
            ap {B = ℕ} (λ (b : Bool). if b then 1 else 0) g,
          )
    ]
  where
    room : (x l : ℤ) → x ≡ pos k → x <ℤ l → leb_ℤ l (pos bound) ≡ true → suc k ≤ bound
    room x l e f g = ground arith

    add_one : (n : ℕ) → pos n +ℤ pos 1 ≡ pos (suc n)
    add_one n = unfold ◌+ℤ◌ in ground arith
