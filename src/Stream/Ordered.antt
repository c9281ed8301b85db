-- ===== src/Stream/Ordered.antt =====
-- The order of a stream's events, and `stream_publish` (honker-core/src/honker_ops.rs).
use honker.Stream.{Streams, Event, stream_publish}
use honker.Base.Int.{ℤ, ◌<ℤ◌, ◌≤ℤ◌, pos, i64_max}
use honker.Table.{select}
use honker.Queue.Claim.{key}
use honker.Base.{
  String, ◌≡◌, refl, inl, inr, Bool, Option, List, [], ◌∷◌, ◌++◌, arith, Bool-cases, ltb,
}

-- Offsets past `o`, each larger than the one before.
abbrev pub Increasing : ℤ → List Event → Type 0
Increasing o [] = Unit
Increasing o (e ∷ es) = (o <ℤ pos e.offset) × Increasing (pos e.offset) es

-- The offset of the last event; `o` if there is none.
abbrev pub last_offset : ℤ → List Event → ℤ
last_offset o [] = o
last_offset o (e ∷ es) = last_offset (pos e.offset) es

-- The events are in the order of their offsets, which start at 1 and have not reached the next one.
pub record IsOrdered (s : Streams) : Type 0 where
  pub increasing : Increasing (pos 0) s.events
  pub fresh : last_offset (pos 0) s.events <ℤ pos s.next_offset

pub Increasing-mono : (o o' : ℤ) (es : List Event) → o' ≤ℤ o → Increasing o es → Increasing o' es
Increasing-mono o o' [] h i = tt
Increasing-mono o o' (e ∷ es) h i = (omega (arith, i.0), i.1)

pub Increasing-append :
    (o : ℤ) (es : List Event) (e : Event)
    → Increasing o es
    → last_offset o es <ℤ pos e.offset
    → Increasing o (es ++ e ∷ [])
Increasing-append o [] e i h = (h, tt)
Increasing-append o (x ∷ es) e i h = (i.0, Increasing-append (pos x.offset) es e i.1 h)

pub last_append :
    (o : ℤ) (es : List Event) (e : Event) → last_offset o (es ++ e ∷ []) ≡ pos e.offset
last_append o [] e = refl
last_append o (x ∷ es) e = last_append (pos x.offset) es e

-- Publishing, successful or not, keeps a stream in order: its offsets start past 0, increase, and
-- have not reached the next one.
pub stream_publish-IsOrdered :
    (topic : String) (key : Option String) (payload : String) (created : ℤ) (s : Streams)
    → IsOrdered s
    → IsOrdered (stream_publish topic key payload created s).1
unfolding stream_publish
stream_publish-IsOrdered topic key payload created s v =
    elim (Bool-cases (ltb i64_max s.next_offset)) [
      | inl e ↦ rw e v
      | inr e ↦ rw e (record {
        increasing = Increasing-append (pos 0) s.events _ v.increasing v.fresh;
        fresh = rw (last_append (pos 0) s.events _) (omega arith);
      })
    ]

pub Increasing-select :
    (o : ℤ) (p : Event → Bool) (es : List Event) → Increasing o es → Increasing o (select p es)
Increasing-select o p [] i = tt
Increasing-select o p (e ∷ es) i = elim (Bool-cases (p e)) [
  | inl h ↦ rw h (i.0, Increasing-select (pos e.offset) p es i.1)
  | inr h ↦ rw h (
      Increasing-mono (pos e.offset) o (select p es) (omega (arith, i.0))
        (Increasing-select (pos e.offset) p es i.1))
]
