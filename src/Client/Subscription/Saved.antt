-- ===== src/Client/Subscription/Saved.antt =====
-- What a `StreamSubscription` saves, and where the next one begins (packages/honker-rs/src/lib.rs).
use honker.Base.{
  Bool, String, ◌≡◌, ℕ, refl, ap, ◌∙◌, inl, inr, true, false, Option, none, some, arith, Bool-cases,
  if◌then◌else◌, ltb,
}
use honker.Stream.Offsets.{save-find}
use honker.Action.{ok, err, Result}
use honker.Stream.{behind, is_consumer, Streams, stream_save_offset, offset_of, Consumer, moved_to}
use honker.Base.Int.{ℤ, ◌<ℤ◌, ◌≤ℤ◌, ltb_ℤ, eq_of_parts}
use honker.Client.Subscription.{Session, after_save, save_call, save_offset}
use honker.Table.Upsert.{writes, find, writes, upserted}
use honker.Client.{with_conn}

abbrev pub stored : String → String → Streams → ℤ
stored consumer topic s = offset_of (find (is_consumer consumer topic) s.consumers)

abbrev pub row_of : Session → ℤ
row_of x = stored x.sub.consumer x.sub.topic x.streams

-- The consumer's row holds what the subscription saved last, which is not past its position.
pub record Marks (consumer topic : String) (x : Session) : Type 0 where
  pub whose : x.sub.consumer ≡ consumer
  pub on : x.sub.topic ≡ topic
  pub row : row_of x ≡ x.sub.last_saved
  pub later : x.sub.last_saved ≤ℤ x.sub.last_offset

-- A save past the stored offset stores it.
saved_row :
    (consumer topic : String) (offset : ℤ) (s : Streams)
    → stored consumer topic s <ℤ offset
    → ((stream_save_offset consumer topic offset s).0 ≡ ok 1)
      × (stored consumer topic (stream_save_offset consumer topic offset s).1 ≡ offset)
unfolding stream_save_offset
saved_row consumer topic offset s h =
    let old = find (is_consumer consumer topic) s.consumers in
    (told old h, ap offset_of (save-find consumer topic offset s) ∙ moved old h)
  where
    told :
        (o : Option Consumer)
        → offset_of o <ℤ offset
        → ◌≡◌ {A = Result ℕ}
            (ok (if writes (is_consumer consumer topic) (behind offset) o then 1 else 0))
            (ok 1)
    told none h = refl
    told (some c) h = ground (arith, h)

    moved :
        (o : Option Consumer)
        → offset_of o <ℤ offset
        → offset_of (
            some (
              upserted
                (is_consumer consumer topic)
                (record { name = consumer; topic = topic; offset = offset })
                (behind offset)
                (moved_to offset)
                o))
          ≡ offset
    moved none h = refl
    moved (some c) h = ground (arith, h)

-- What a save that is done leaves.
after_save-Marks :
    (consumer topic : String) (x : Session) (r : Result ℕ × Streams)
    → Marks consumer topic x
    → r.0 ≡ ok 1
    → stored x.sub.consumer x.sub.topic r.1 ≡ x.sub.last_offset
    → let y = (after_save r x.sub).1 in Marks consumer topic y × (row_of y ≡ x.sub.last_offset)
after_save-Marks consumer topic x (err e, s) m h k = absurd (ground (arith, h))
after_save-Marks consumer topic x (ok n, s) m h k = elim (Bool-cases (ltb 0 n)) [
  | inl e ↦ rw e (record { whose = m.whose; on = m.on; row = k; later = omega arith }, k)
  | inr e ↦ absurd (ground (arith, h, e))
]

pub save_offset-Marks :
    (consumer topic : String) (down : Bool) (x : Session)
    → Marks consumer topic x
    → Marks consumer topic (save_offset down x).1
unfolding save_offset
save_offset-Marks consumer topic down x m =
    elim (Bool-cases (ltb_ℤ x.sub.last_saved x.sub.last_offset)) [
      | inl e ↦ rw e (called down (rw m.row (ground (arith, e))))
      | inr e ↦ rw e m
    ]
  where
    called :
        (down : Bool)
        → row_of x <ℤ x.sub.last_offset
        → Marks consumer topic (with_conn down (λ (y : Session). save_call y.sub y.streams) x).1
    called true h = m
    called false h =
        let (one, at) = saved_row x.sub.consumer x.sub.topic x.sub.last_offset x.streams h in
        (after_save-Marks consumer topic x _ m one at).0

-- A save that is done leaves the row at the subscription's position.
pub save_offset-row :
    (consumer topic : String) (x : Session)
    → Marks consumer topic x
    → row_of (save_offset false x).1 ≡ x.sub.last_offset
unfolding save_offset
save_offset-row consumer topic x m = elim (Bool-cases (ltb_ℤ x.sub.last_saved x.sub.last_offset)) [
  | inl e ↦
      let (one, at) =
        saved_row x.sub.consumer x.sub.topic x.sub.last_offset x.streams
          (rw m.row (ground (arith, e))) in
      rw e (after_save-Marks consumer topic x _ m one at).1
  | inr e ↦ rw e (m.row ∙ eq_of_parts _ _ (ground (arith, e, m.later)))
]
