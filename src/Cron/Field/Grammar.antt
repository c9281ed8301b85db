-- ===== src/Cron/Field/Grammar.antt =====
-- How the parts of a field of a schedule expression are written (honker-core/src/cron.rs,
-- `parse_field`).
use honker.Action.{ok, err, Result}
use honker.Base.{
  ℕ, ◌≡◌, refl, Option, none, some, List, [], ◌∷◌, ◌++◌, true, false, arith, sym, ◌∙◌, Bool-cases,
  inl, inr, append_assoc, ◌==◌,
}
use honker.Cron.Field.{
  Range, parse_part, range_and_step, bounds_of, is_star, or_bad, positive, ends_of, member, ◌>>=◌,
  with_step,
}
use honker.Cron.Text.{parse_u32, once_from, split_once}

-- A text for the numbers from `a` to `b`: a star for all those of the field, a number, or two numbers
-- with a dash between them, the first dash of the text.
pub data RangeText (lo hi : ℕ) (range : List ℕ) (a b : ℕ) : Type 0 where
  star : range ≡ b'*' ∷ [] → a ≡ lo → b ≡ hi → RangeText lo hi range a b
  number : member range b'-' ≡ false → parse_u32 range ≡ some a → b ≡ a → RangeText lo hi range a b
  span :
      (first last : List ℕ)
      → range ≡ first ++ b'-' ∷ last
      → member first b'-' ≡ false
      → parse_u32 first ≡ some a
      → parse_u32 last ≡ some b
      → RangeText lo hi range a b

-- A part is such a text, with the step 1, or one with a slash, the first of the part, and the step
-- after it.
pub data PartText (lo hi : ℕ) (part : List ℕ) (r : Range) : Type 0 where
  plain :
      member part b'/' ≡ false
      → r.step ≡ 1
      → RangeText lo hi part r.start r.end
      → PartText lo hi part r
  stepped :
      (range by : List ℕ)
      → part ≡ range ++ b'/' ∷ by
      → member range b'/' ≡ false
      → parse_u32 by ≡ some r.step
      → RangeText lo hi range r.start r.end
      → PartText lo hi part r

member-append_one :
    (xs : List ℕ) (c sep : ℕ)
    → member xs sep ≡ false
    → (c == sep) ≡ false
    → member (xs ++ c ∷ []) sep ≡ false
member-append_one [] c sep h k = ground (arith, k)
member-append_one (x ∷ xs) c sep h k = ground (arith, h, k, member-append_one xs c sep)

once_from_found :
    (sep : ℕ) (cur s a b : List ℕ)
    → member cur sep ≡ false
    → once_from sep cur s ≡ some (a, b)
    → (cur ++ s ≡ a ++ sep ∷ b) × (member a sep ≡ false)
unfolding once_from
once_from_found sep cur [] a b m h = absurd (ground (arith, h))
once_from_found sep cur (c ∷ s) a b m h = elim (Bool-cases (c == sep)) [
  | inl e ↦
      let pair : Option (List ℕ × List ℕ) = some (cur, s) in
      let k : pair ≡ some (a, b) = ground (arith, e, h) in
      let first : cur ≡ a = ground (arith, k) in
      let last : s ≡ b = ground (arith, k) in
      let mark : c ≡ sep = ground (arith, e) in (rw (first, last, mark) refl, rw first at m)
  | inr e ↦
      let k : once_from sep (cur ++ c ∷ []) s ≡ some (a, b) = ground (arith, e, h) in
      let (joined, none_before) =
        once_from_found sep (cur ++ c ∷ []) s a b (member-append_one cur c sep m e) k in
      (sym (append_assoc cur (c ∷ []) s) ∙ joined, none_before)
]

once_from_missing : (sep : ℕ) (cur s : List ℕ) → once_from sep cur s ≡ none → member s sep ≡ false
unfolding once_from
once_from_missing sep cur [] h = refl
once_from_missing sep cur (c ∷ s) h = elim (Bool-cases (c == sep)) [
  | inl e ↦ absurd (ground (arith, e, h))
  | inr e ↦
      let k : once_from sep (cur ++ c ∷ []) s ≡ none = ground (arith, e, h) in
      ground (arith, e, once_from_missing sep (cur ++ c ∷ []) s k)
]

star_alone : (range : List ℕ) → is_star range ≡ true → range ≡ b'*' ∷ []
star_alone [] h = absurd (ground (arith, h))
star_alone (c ∷ []) h = ground (arith, h)
star_alone (c ∷ d ∷ s) h = absurd (ground (arith, h))

module _ {ℓ κ} {A : Type ℓ} {B : Type κ} where
  -- A chain that succeeds has a value at its first step.
  pub >>=-ok :
      (first : Result A) (rest : A → Result B) {result : B}
      → (first >>= rest) ≡ ok result
      → (value : A) × (first ≡ ok value) × (rest value ≡ ok result)
  >>=-ok (ok value) rest h = (value, refl, h)
  >>=-ok (err e) rest h = absurd (ground (arith, h))

or_bad-ok {ℓ} : {A : Type ℓ} (o : Option A) {a : A} → or_bad o ≡ ok a → o ≡ some a
or_bad-ok none h = absurd (ground (arith, h))
or_bad-ok (some a) h = ground (arith, h)

ends_meaning :
    (lo hi : ℕ) (range : List ℕ) (o : Option (List ℕ × List ℕ)) (q : ℕ × ℕ)
    → split_once range b'-' ≡ o
    → ends_of range o ≡ ok q
    → RangeText lo hi range q.0 q.1
unfolding split_once
ends_meaning lo hi range none q e h =
    let (v, k, l) = >>=-ok (or_bad (parse_u32 range)) _ h in
    let low : v ≡ q.0 = ground (arith, l) in
    number (once_from_missing b'-' [] range e) (rw (or_bad-ok (parse_u32 range) k, low) refl)
      (ground (arith, l))
ends_meaning lo hi range (some (a, b)) q e h =
    let (x, k, l) = >>=-ok (or_bad (parse_u32 a)) _ h in
    let (y, m, n) = >>=-ok (or_bad (parse_u32 b)) _ l in
    let low : x ≡ q.0 = ground (arith, n) in
    let high : y ≡ q.1 = ground (arith, n) in
    let (joined, none_before) = once_from_found b'-' [] range a b refl e in
    span a b joined none_before (rw (or_bad-ok (parse_u32 a) k, low) refl)
      (rw (or_bad-ok (parse_u32 b) m, high) refl)

range_meaning :
    (lo hi : ℕ) (range : List ℕ) (q : ℕ × ℕ)
    → bounds_of lo hi range ≡ ok q
    → RangeText lo hi range q.0 q.1
unfolding bounds_of
range_meaning lo hi range q h = elim (Bool-cases (is_star range)) [
  | inl e ↦ star (star_alone range e) (ground (arith, e, h)) (ground (arith, e, h))
  | inr e ↦ ends_meaning lo hi range (split_once range b'-') q refl (ground (arith, e, h))
]

step_meaning :
    (part : List ℕ) (o : Option (List ℕ × List ℕ)) (q : List ℕ × ℕ) (lo hi : ℕ) (r : Range)
    → split_once part b'/' ≡ o
    → with_step part o ≡ ok q
    → RangeText lo hi q.0 r.start r.end
    → r.step ≡ q.1
    → PartText lo hi part r
unfolding split_once
step_meaning part none q lo hi r e h text same_step =
    let alone : part ≡ q.0 = ground (arith, h) in
    plain (once_from_missing b'/' [] part e) (ground (arith, h, same_step)) (rw alone text)
step_meaning part (some (s, by)) q lo hi r e h text same_step =
    let (n, k, l) = >>=-ok (or_bad (parse_u32 by)) _ h in
    let (m, c, d) = >>=-ok (positive n) (λ step. ok (s, step)) l in
    let (joined, none_before) = once_from_found b'/' [] part s by refl e in
    let read : n ≡ r.step = ground (arith, c, d, same_step) in
    let left : s ≡ q.0 = ground (arith, d) in
    stepped s by joined none_before (rw (or_bad-ok (parse_u32 by) k, read) refl) (rw left text)

pub part_meaning :
    (lo hi : ℕ) (part : List ℕ) (r : Range) → parse_part lo hi part ≡ ok r → PartText lo hi part r
unfolding parse_part range_and_step
part_meaning lo hi part r h =
    let (q, a, b) = >>=-ok (range_and_step part) _ h in
    let (ends, c, d) = >>=-ok (bounds_of lo hi q.0) _ b in
    let low : ends.0 ≡ r.start = ground (arith, d) in
    let high : ends.1 ≡ r.end = ground (arith, d) in
    let text : RangeText lo hi q.0 r.start r.end =
      rw (low, high) at (range_meaning lo hi q.0 ends c) in
    step_meaning part (split_once part b'/') q lo hi r refl a text (ground (arith, d))

-- The parts of a field and what they stand for, one by one.
abbrev pub Reads : ℕ → ℕ → List (List ℕ) → List Range → Type 0
Reads lo hi [] [] = Unit
Reads lo hi (p ∷ ps) (r ∷ rs) = PartText lo hi p r × Reads lo hi ps rs
Reads lo hi _ _ = ⊥
