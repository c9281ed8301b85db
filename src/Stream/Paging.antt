-- ===== src/Stream/Paging.antt =====
-- Reading a topic in pages (honker-core/src/honker_ops.rs, `stream_read_since`).
use honker.Stream.{Streams, Event, by_offset, is_since, stream_read_since, all_decode}
use honker.Base.Int.{ℤ, ◌≤ℤ◌, pos}
use honker.Table.{order_by, insert, select, limit}
use honker.Queue.Claim.{key}
use honker.Base.{
  ℕ, zero, suc, ◌+◌, String, ◌≡◌, refl, inl, inr, Option, List, [], ◌∷◌, ◌++◌, arith, Bool-cases,
  take, ap, true, false, sym, ◌∙◌, subst,
}
use honker.Action.{ok}
use honker.Stream.Ordered.{IsOrdered, Increasing-select, Increasing-mono, Increasing, last_offset}
use honker.Cron.Calendar.{second}

ordered_id : (o : ℤ) (es : List Event) → Increasing o es → order_by by_offset es ≡ es
unfolding order_by insert
ordered_id o [] i = refl
ordered_id o (e ∷ []) i = refl
ordered_id o (e ∷ x ∷ es) i = rw (ordered_id (pos e.offset) (x ∷ es) i.1) (ground (arith, i.1.0))

last_above : (o : ℤ) (es : List Event) (n : ℕ) → Increasing o es → o ≤ℤ last_offset o (take n es)
last_above o es zero i = omega arith
last_above o [] (suc n) i = omega arith
last_above o (e ∷ es) (suc n) i = omega (arith, i.0, last_above (pos e.offset) es n i.1)

all_since :
    (topic : String) (o u : ℤ) (es : List Event)
    → o ≤ℤ u
    → Increasing u es
    → select (is_since topic o) es ≡ select (is_since topic u) es
all_since topic o u [] h i = refl
all_since topic o u (e ∷ es) h i = ground (
  arith,
  i.0,
  all_since topic o u es h (Increasing-mono (pos e.offset) u es (omega (arith, i.0)) i.1),
)

-- The events that are selected past `o` increase from `o`.
pub Increasing-since :
    (topic : String) (o b : ℤ) (es : List Event)
    → Increasing b es
    → Increasing o (select (is_since topic o) es)
Increasing-since topic o b [] i = tt
Increasing-since topic o b (e ∷ es) i = elim (Bool-cases (is_since topic o e)) [
  | inl h ↦ rw h (ground (arith, h), Increasing-select (pos e.offset) (is_since topic o) es i.1)
  | inr h ↦ rw h (Increasing-since topic o (pos e.offset) es i.1)
]

abbrev no_events : List Event
no_events = []

nil_page : (k j : ℕ) → take j no_events ≡ take k no_events
nil_page zero zero = refl
nil_page (suc k) zero = refl
nil_page zero (suc j) = refl
nil_page (suc k) (suc j) = refl

suc_add : (a b : ℕ) → suc a + b ≡ suc (a + b)
suc_add a b = omega arith

-- What stands past the last of the first `n` events of `xs` continues them, in the events `es`.
abbrev Paged : String → ℤ → ℕ → ℕ → List Event → List Event → Type 0
Paged topic o n m es xs =
    take n xs ++ take m (select (is_since topic (last_offset o (take n xs))) es) ≡ take (n + m) xs

-- The page after a page, in the list of the topic's events.
next_page :
    (topic : String) (o b : ℤ) (n m : ℕ) (es : List Event)
    → Increasing b es
    → Paged topic o n m es (select (is_since topic o) es)
next_page topic o b zero m es i = ap (λ k. take k (select (is_since topic o) es)) (zero_add m)
  where
    zero_add : (k : ℕ) → k ≡ 0 + k
    zero_add k = omega arith
next_page topic o b (suc n) m [] i = rw (suc_add n m) (nil_page (suc (n + m)) m)
next_page topic o b (suc n) m (e ∷ es) i = elim (Bool-cases (is_since topic o e)) [
  | inl h ↦
      let since = select (is_since topic (pos e.offset)) es in
      let past : is_since topic (last_offset (pos e.offset) (take n since)) e ≡ false = ground (
        arith,
        last_above (pos e.offset) since n
            (Increasing-select (pos e.offset) (is_since topic (pos e.offset)) es i.1),
      ) in
      let whole : select (is_since topic o) (e ∷ es) ≡ e ∷ since = rw h (
        ap (λ (es : List Event). e ∷ es)
          (all_since topic o (pos e.offset) es (ground (arith, h)) i.1)) in
      subst (Paged topic o (suc n) m (e ∷ es)) (sym whole) (
        rw (past, suc_add n m)
          (ap (λ (es : List Event). e ∷ es)
            (next_page topic (pos e.offset) (pos e.offset) n m es i.1)))
  | inr h ↦
      let page = select (is_since topic o) es in
      let later : o ≤ℤ last_offset o (take (suc n) page) =
        last_above o page (suc n) (Increasing-since topic o (pos e.offset) es i.1) in
      let skip : is_since topic (last_offset o (take (suc n) page)) e ≡ false =
        ground (arith, h, later) in
      let whole : select (is_since topic o) (e ∷ es) ≡ page = rw h refl in
      subst (Paged topic o (suc n) m (e ∷ es)) (sym whole)
        (rw skip (next_page topic o (pos e.offset) (suc n) m es i.1))
]

read_whole :
    (topic : String) (o n : ℤ) (s : Streams) (ys : List Event)
    → IsOrdered s
    → limit n (select (is_since topic o) s.events) ≡ ys
    → all_decode ys ≡ true
    → stream_read_since topic o n s ≡ ok ys
unfolding stream_read_since
read_whole topic o n s ys v h d =
    rw
      (
        ordered_id (pos 0) (select (is_since topic o) s.events)
            (Increasing-select (pos 0) (is_since topic o) s.events v.increasing),
        h,
        d,
      )
      refl

pub read_ordered :
    (topic : String) (o n : ℤ) (s : Streams) (ys : List Event)
    → IsOrdered s
    → stream_read_since topic o n s ≡ ok ys
    → (limit n (select (is_since topic o) s.events) ≡ ys) × (all_decode ys ≡ true)
unfolding stream_read_since
read_ordered topic o n s ys v h = ground (
  arith,
  h,
  ordered_id (pos 0) (select (is_since topic o) s.events)
      (Increasing-select (pos 0) (is_since topic o) s.events v.increasing),
)

decode_append :
    (xs ys : List Event)
    → all_decode xs ≡ true
    → all_decode ys ≡ true
    → all_decode (xs ++ ys) ≡ true
decode_append [] ys h k = k
decode_append (x ∷ xs) ys h k = ground (arith, h, k, decode_append xs ys)

-- A consumer that reads a page of up to `n` events past an offset, and then one of up to `m` past the
-- last event that it got, has read what one read of up to `n + m` returns: no event twice, none left
-- out. The stream is in order.
pub stream_read_since_pages :
    (topic : String) (o : ℤ) (n m : ℕ) (s : Streams) (ys zs : List Event)
    → IsOrdered s
    → stream_read_since topic o (pos n) s ≡ ok ys
    → stream_read_since topic (last_offset o ys) (pos m) s ≡ ok zs
    → stream_read_since topic o (pos (n + m)) s ≡ ok (ys ++ zs)
stream_read_since_pages topic o n m s ys zs v h k =
    let (first, d) = read_ordered topic o (pos n) s ys v h in
    let (second, g) = read_ordered topic (last_offset o ys) (pos m) s zs v k in
    let whole : take (n + m) (select (is_since topic o) s.events) ≡ ys ++ zs =
      sym (next_page topic o (pos 0) n m s.events v.increasing)
      ∙ ap (λ (es : List Event). es ++ take m (select (is_since topic (last_offset o es)) s.events))
          first
      ∙ ap (λ (es : List Event). ys ++ es) second in
    read_whole topic o (pos (n + m)) s (ys ++ zs) v whole (decode_append ys zs d g)

abbrev pub event : String → String → Option String → ℤ → ℕ → Event
event topic payload key created k = record {
  offset = k;
  topic = topic;
  key = key;
  payload = payload;
  created_at = created;
}
