-- ===== src/Stream/Rest.antt =====
-- What is left of a topic past a part of its events (honker-core/src/honker_ops.rs,
-- `stream_read_since`).
use honker.Base.{
  String, ◌≡◌, refl, sym, ap, ◌∙◌, subst, inl, inr, true, List, [], ◌∷◌, ◌++◌, arith, str_eq,
  Bool-cases, All,
}
use honker.Table.{select}
use honker.Stream.{is_since, Event}
use honker.Base.Int.{pos, ◌≤ℤ◌, ℤ}
use honker.Stream.Paging.{Increasing-since}
use honker.Stream.Ordered.{last_offset, Increasing, Increasing-mono}

since_since :
    (topic : String) (o u : ℤ) (es : List Event)
    → o ≤ℤ u
    → select (is_since topic u) (select (is_since topic o) es) ≡ select (is_since topic u) es
since_since topic o u [] h = refl
since_since topic o u (e ∷ es) h = ground (arith, h, since_since topic o u es h)

last_le : (o : ℤ) (xs ys : List Event) → Increasing o (xs ++ ys) → o ≤ℤ last_offset o xs
last_le o [] ys i = omega arith
last_le o (x ∷ xs) ys i = omega (arith, i.0, last_le (pos x.offset) xs ys i.1)

abbrev InTopic : String → Event → Type 0
InTopic topic e = str_eq e.topic topic ≡ true

select-InTopic :
    (topic : String) (o : ℤ) (es : List Event) → All (InTopic topic) (select (is_since topic o) es)
select-InTopic topic o [] = tt
select-InTopic topic o (e ∷ es) = elim (Bool-cases (is_since topic o e)) [
  | inl h ↦ rw h (ground (arith, h), select-InTopic topic o es)
  | inr h ↦ rw h (select-InTopic topic o es)
]

all_later :
    (topic : String) (o : ℤ) (ys : List Event)
    → Increasing o ys
    → All (InTopic topic) ys
    → select (is_since topic o) ys ≡ ys
all_later topic o [] i t = refl
all_later topic o (y ∷ ys) i t = ground (
  arith,
  t.0,
  i.0,
  all_later topic o ys (Increasing-mono (pos y.offset) o ys (omega (arith, i.0)) i.1) t.1,
)

later_only :
    (topic : String) (o : ℤ) (xs ys : List Event)
    → Increasing o (xs ++ ys)
    → All (InTopic topic) (xs ++ ys)
    → select (is_since topic (last_offset o xs)) (xs ++ ys) ≡ ys
later_only topic o [] ys i t = all_later topic o ys i t
later_only topic o (x ∷ xs) ys i t =
    ground (arith, last_le (pos x.offset) xs ys i.1, later_only topic (pos x.offset) xs ys i.1 t.1)

pub since_rest :
    (topic : String) (o b : ℤ) (es xs ys : List Event)
    → Increasing b es
    → select (is_since topic o) es ≡ xs ++ ys
    → select (is_since topic (last_offset o xs)) es ≡ ys
since_rest topic o b es xs ys i h =
    let up : Increasing o (xs ++ ys) = subst (Increasing o) h (Increasing-since topic o b es i) in
    sym (since_since topic o (last_offset o xs) es (last_le o xs ys up))
    ∙ ap (select (is_since topic (last_offset o xs))) h
    ∙ later_only topic o xs ys up (subst (All (InTopic topic)) h (select-InTopic topic o es))
