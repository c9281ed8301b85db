-- ===== src/Stream/Offsets.antt =====
-- The offsets that consumers save (honker-core/src/honker_ops.rs).
use text.Mathlib.TextPositions.{eq_refl}
use honker.Stream.{
  Streams, stream_get_offset, behind, stream_save_offset, Consumer, moved_to, offset_of,
  is_consumer,
}
use honker.Base.Int.{ℤ, ltb_ℤ}
use honker.Action.{ok}
use honker.Table.Upsert.{find, upserted, writes, find-upsert_other, find-upsert}
use honker.Base.{
  String, ◌≡◌, refl, ap, false, ◌&&◌, Option, none, some, arith, str_eq, eq_iff, if◌then◌else◌, ℕ,
}

-- The offset that a consumer has after it saved `offset`.
abbrev pub later_offset : ℤ → Option Consumer → ℤ
later_offset offset none = offset
later_offset offset (some c) = if ltb_ℤ c.offset offset then offset else c.offset

-- 1 if saving `offset` changes the consumer's row.
abbrev pub moves : ℤ → Option Consumer → ℕ
moves offset none = 1
moves offset (some c) = if ltb_ℤ c.offset offset then 1 else 0

-- The consumer's row after a save.
pub save-find :
    (name topic : String) (offset : ℤ) (s : Streams)
    → find (is_consumer name topic) (stream_save_offset name topic offset s).1.consumers
      ≡ some (
          upserted
            (is_consumer name topic)
            (record { name = name; topic = topic; offset = offset })
            (behind offset)
            (moved_to offset)
            (find (is_consumer name topic) s.consumers))
unfolding stream_save_offset
save-find name topic offset s =
    find-upsert (is_consumer name topic) (record { name = name; topic = topic; offset = offset })
      (behind offset) (moved_to offset) (ground (arith, eq_refl name, eq_refl topic)) (λ c h. h)
      s.consumers

-- The rows of the others.
pub save-find_other :
    (name topic : String) (offset : ℤ) (s : Streams) (other_name other_topic : String)
    → (str_eq name other_name && str_eq topic other_topic) ≡ false
    → find (is_consumer other_name other_topic) (stream_save_offset name topic offset s).1.consumers
      ≡ find (is_consumer other_name other_topic) s.consumers
unfolding stream_save_offset
save-find_other name topic offset s other_name other_topic d =
    find-upsert_other (is_consumer name topic)
      (record { name = name; topic = topic; offset = offset }) (behind offset) (moved_to offset)
      (is_consumer other_name other_topic) d
      (λ c k. ground (
        arith,
        eq_iff c.name name,
        eq_iff c.topic topic,
        eq_iff c.name other_name,
        eq_iff c.topic other_topic,
        eq_iff name other_name,
        eq_iff topic other_topic,
      ))
      s.consumers

-- The first offset that a consumer saves is kept as it is, and after that the larger one: a late or
-- repeated save never moves the consumer back. The call returns 1 exactly when it changed the row.
-- The offsets of other consumers and topics stay as they were.
stream_get_offset-save :
    (name topic : String) (offset : ℤ) (s : Streams) (other_name other_topic : String)
    → (str_eq name other_name && str_eq topic other_topic) ≡ false
    → (stream_get_offset name topic (stream_save_offset name topic offset s).1
        ≡ ok (later_offset offset (find (is_consumer name topic) s.consumers)))
      × ((stream_save_offset name topic offset s).0
          ≡ ok (moves offset (find (is_consumer name topic) s.consumers)))
      × (stream_get_offset other_name other_topic (stream_save_offset name topic offset s).1
          ≡ stream_get_offset other_name other_topic s)
unfolding stream_get_offset stream_save_offset
stream_get_offset-save name topic offset s other_name other_topic d = (
  rw (save-find name topic offset s) (saved (find (is_consumer name topic) s.consumers)),
  ap ok (told (find (is_consumer name topic) s.consumers)),
  ap (λ o. ok (offset_of o)) (save-find_other name topic offset s other_name other_topic d),
)
  where
    saved :
        (o : Option Consumer)
        → ok (
            offset_of (
              some (
                upserted
                  (is_consumer name topic)
                  (record { name = name; topic = topic; offset = offset })
                  (behind offset)
                  (moved_to offset)
                  o)))
          ≡ ok (later_offset offset o)
    saved none = refl
    saved (some c) = ground arith

    told :
        (o : Option Consumer)
        → (if writes (is_consumer name topic) (behind offset) o then 1 else 0) ≡ moves offset o
    told none = refl
    told (some c) = refl
