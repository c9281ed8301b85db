-- ===== src/Cron/Field/Meaning.antt =====
-- What a parsed field of a schedule expression means (honker-core/src/cron.rs, `parse_field`).
use native.Mathlib.Nat.{zero-mod}
use honker.Cron.Field.{
  Range, member, ◌>>=◌, range_and_step, or_bad, add_range, parse_parts, bounds_of, positive,
  parse_part, u32_max, parse_field,
}
use honker.Action.{ok}
use honker.Cron.Text.{split_once, parse_u32, split_from, split}
use honker.Cron.Field.Members.{Rising, fill-Rising, in_range, member-fill}
use honker.Base.{
  ℕ, suc, ◌≤◌, ◌<◌, ◌≡◌, refl, subst, Bool, false, not, ◌&&◌, ◌||◌, Option, none, some, List, [],
  ◌∷◌, arith, leb, true, length, ◌-◌, sym, ap, ◌∙◌, inl, inr, ◌++◌, ◌==◌, Bool-cases,
}
use honker.Cron.Field.Grammar.{part_meaning, Reads, >>=-ok}

abbrev pub in_some : List Range → ℕ → Bool
in_some [] x = false
in_some (r ∷ rs) x = in_range r.start r.end r.step x || in_some rs x

positive_sound : (n m : ℕ) → positive n ≡ ok m → 0 < m
positive_sound n m h = ground (arith, h)

-- A range that is read lies in the bounds of its field, and has a positive step.
pub record IsWithin (lo hi : ℕ) (r : Range) : Type 0 where
  pub above : lo ≤ r.start
  pub ordered : r.start ≤ r.end
  pub below : r.end ≤ hi
  pub forward : 0 < r.step

step_positive :
    (part : List ℕ) (o : Option (List ℕ × List ℕ)) (q : List ℕ × ℕ)
    → split_once part b'/' ≡ o
    → range_and_step part ≡ ok q
    → 0 < q.1
unfolding range_and_step
step_positive part none q e h = ground (arith, e, h)
step_positive part (some (r, s)) q e h =
    let h' : (or_bad (parse_u32 s) >>= λ n. positive n >>= λ step. ok (r, step)) ≡ ok q =
      rw (range_and_step, e) at h in
    let (n, a, b) = >>=-ok (or_bad (parse_u32 s)) _ h' in
    let (m, c, d) = >>=-ok (positive n) (λ step. ok (r, step)) b in
    ground (arith, positive_sound n m c, d)

parse_part-IsWithin :
    (lo hi : ℕ) (p : List ℕ) (r : Range) → parse_part lo hi p ≡ ok r → IsWithin lo hi r
unfolding parse_part
parse_part-IsWithin lo hi p r h =
    let (q, a, b) = >>=-ok (range_and_step p) _ h in
    let (c, d, e) = >>=-ok (bounds_of lo hi q.0) _ b in
    let s = step_positive p (split_once p b'/') q refl a in
    record {
      above = ground (arith, e);
      ordered = ground (arith, e);
      below = ground (arith, e);
      forward = ground (arith, e, s);
    }

-- The set of numbers that some parts add to those of `out`.
record Adds (lo hi : ℕ) (parts : List (List ℕ)) (out set : List ℕ) (x : ℕ) : Type 0 where
  ranges : List Range
  read : Reads lo hi parts ranges
  members : member set x ≡ (member out x || in_some ranges x)
  within : (in_some ranges x && not (leb lo x && leb x hi)) ≡ false

parse_parts-Adds :
    (lo hi : ℕ) (parts : List (List ℕ)) (out set : List ℕ) (x : ℕ)
    → hi < u32_max
    → parse_parts lo hi parts out ≡ ok set
    → Adds lo hi parts out set x
unfolding parse_parts
parse_parts-Adds lo hi [] out set x small h = record {
  ranges = [];
  read = tt;
  members = ground (arith, h);
  within = refl;
}
parse_parts-Adds lo hi (p ∷ ps) out set x small h =
    let (r, a, b) = >>=-ok (parse_part lo hi p) _ h in
    let w = parse_part-IsWithin lo hi p r a in
    let rest = parse_parts-Adds lo hi ps (add_range r out) set x small b in
    record {
      ranges = r ∷ rest.ranges;
      read = (part_meaning lo hi p r a, rest.read);
      members = ground (
        arith,
        rest.members,
        member-fill (suc r.end) r.start r.end r.step x out w.forward (omega (arith, w.below))
            (omega arith),
      );
      within = ground (arith, w.above, w.ordered, w.below, rest.within);
    }

parse_parts-Rising :
    (lo hi : ℕ) (parts : List (List ℕ)) (out set : List ℕ)
    → Rising 0 out
    → parse_parts lo hi parts out ≡ ok set
    → Rising 0 set
unfolding parse_parts
parse_parts-Rising lo hi [] out set r h = subst (Rising 0) (ground (arith, h)) r
parse_parts-Rising lo hi (p ∷ ps) out set r h =
    let (q, a, b) = >>=-ok (parse_part lo hi p) _ h in
    parse_parts-Rising lo hi ps (add_range q out) set
      (fill-Rising (suc q.end) q.start q.end q.step out r) b

nonempty_of_member : (set : List ℕ) (x : ℕ) → member set x ≡ true → 0 < length set
nonempty_of_member [] x h = absurd (ground (arith, h))
nonempty_of_member (y ∷ ys) x h = omega arith

split_from-cons :
    (sep : ℕ) (cur s : List ℕ)
    → (p : List ℕ) × (ps : List (List ℕ)) × (split_from sep cur s ≡ p ∷ ps)
unfolding split_from
split_from-cons sep cur [] = (cur, [], refl)
split_from-cons sep cur (c ∷ s) = elim (Bool-cases (c == sep)) [
  | inl e ↦ (cur, split_from sep [] s, ground (arith, e))
  | inr e ↦ let (p, ps, k) = split_from-cons sep (cur ++ c ∷ []) s in (p, ps, ground (arith, e, k))
]

starts_itself : (start end step : ℕ) → start ≤ end → in_range start end step start ≡ true
starts_itself start end step h =
    let none_over : start - start ≡ 0 = omega arith in
    rw none_over (ground (arith, h, zero-mod step))

-- The set of a field: sorted, not empty, and within the field's bounds.
pub record IsFieldSet (lo hi : ℕ) (set : List ℕ) : Type 0 where
  pub rising : Rising 0 set
  pub nonempty : 0 < length set
  pub bounded : (x : ℕ) → member set x ≡ true → (lo ≤ x) × (x ≤ hi)

first_in :
    (lo hi : ℕ) (parts : List (List ℕ)) (out set : List ℕ) (p : List ℕ) (ps : List (List ℕ))
    → hi < u32_max
    → parts ≡ p ∷ ps
    → parse_parts lo hi parts out ≡ ok set
    → 0 < length set
unfolding parse_parts
first_in lo hi parts out set p ps small e h =
    let h' : parse_parts lo hi (p ∷ ps) out ≡ ok set =
      ap (λ (q : List (List ℕ)). parse_parts lo hi q out) (sym e) ∙ h in
    let (r, a, b) = >>=-ok (parse_part lo hi p) _ h' in
    let w = parse_part-IsWithin lo hi p r a in
    let rest = parse_parts-Adds lo hi ps (add_range r out) set r.start small b in
    nonempty_of_member set r.start (
      ground (
        arith,
        rest.members,
        starts_itself r.start r.end r.step w.ordered,
        member-fill (suc r.end) r.start r.end r.step r.start out w.forward (omega (arith, w.below))
            (omega arith),
      ))

pub parse_field-IsFieldSet :
    (field : List ℕ) (lo hi : ℕ) (set : List ℕ)
    → hi < u32_max
    → parse_field field lo hi ≡ ok set
    → IsFieldSet lo hi set
unfolding parse_field split
parse_field-IsFieldSet field lo hi set small h =
    let (p, ps, e) = split_from-cons b',' [] field in
    record {
      rising = parse_parts-Rising lo hi (split field b',') [] set tt h;
      nonempty = first_in lo hi (split field b',') [] set p ps small e h;
      bounded = λ x m.
          let a = parse_parts-Adds lo hi (split field b',') [] set x small h in
          ground (arith, a.members, a.within, m);
    }

-- A field that is parsed stands for the numbers of the ranges that its parts, between the commas, are
-- texts of, and no others. A part is the text of some bounds, with the step 1, or such a text with a
-- slash after it, the first of the part, and the step. The text of some bounds is a star for those of
-- the field, a number for that number alone, or two numbers with a dash between them, the first of the
-- text. The numbers of the set are in the bounds of the field, and there is at least one.
pub parse_field_lem :
    (field : List ℕ) (lo hi : ℕ) (set : List ℕ) (x : ℕ)
    → hi < u32_max
    → parse_field field lo hi ≡ ok set
    → (ranges : List Range) × Reads lo hi (split field b',') ranges
      × (member set x ≡ in_some ranges x)
      × ((member set x && not (leb lo x && leb x hi)) ≡ false)
      × (0 < length set)
unfolding parse_field
parse_field_lem field lo hi set x small h =
    let a = parse_parts-Adds lo hi (split field b',') [] set x small h in
    (
      a.ranges,
      a.read,
      a.members,
      ground (arith, a.members, a.within),
      (parse_field-IsFieldSet field lo hi set small h).nonempty,
    )
