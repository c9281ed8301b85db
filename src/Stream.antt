-- ===== src/Stream.antt =====
-- Streams: `stream_publish`, `stream_read_since`, `stream_save_offset` and `stream_get_offset`
-- (honker-core/src/honker_ops.rs), over the tables `_honker_stream` and `_honker_stream_consumers`
-- (honker-core/src/lib.rs).
pub mod Ordered
pub mod Paging
pub mod Rest
pub mod Offsets
use honker.Base.Int.{ℤ, ltb_ℤ, i64_max, pos, in_i64}
use honker.Action.{ok, Action, full, invalid_column, Result, err}
use honker.Table.{limit, order_by, select}
use honker.Table.Upsert.{find, writes, upsert}
use honker.Base.{
  ℕ, ◌+◌, String, Bool, true, ◌&&◌, Option, none, some, List, [], ◌∷◌, ◌++◌, str_eq, leb, ltb,
  if◌then◌else◌,
}

pub record Event : Type 0 where
  pub offset : ℕ
  pub topic : String
  pub key : Option String
  pub payload : String
  pub created_at : ℤ

pub record Consumer : Type 0 where
  pub name : String
  pub topic : String
  pub offset : ℤ

-- AUTOINCREMENT gives `next_offset` to the next event.
pub record Streams : Type 0 where
  pub events : List Event
  pub next_offset : ℕ
  pub consumers : List Consumer

-- `created` is the reading of the column's default `unixepoch()`.
unfoldable pub stream_publish : String → Option String → String → ℤ → Action Streams ℕ
stream_publish topic key payload created s = if ltb i64_max s.next_offset then (err full, s) else (
  ok s.next_offset,
  record s {
    events =
        s.events
        ++ record {
          offset = s.next_offset;
          topic = topic;
          key = key;
          payload = payload;
          created_at = created;
        }
          ∷ [];
    next_offset = s.next_offset + 1;
  },
)

abbrev pub is_since : String → ℤ → Event → Bool
is_since topic offset e = str_eq e.topic topic && ltb_ℤ offset (pos e.offset)

abbrev pub by_offset : Event → Event → Bool
by_offset a b = leb a.offset b.offset

-- The columns of each row that is read must decode.
abbrev pub all_decode : List Event → Bool
all_decode [] = true
all_decode (e ∷ es) = in_i64 (pos e.offset) && in_i64 e.created_at && all_decode es

abbrev pub decoded_events : List Event → Result (List Event)
decoded_events es = if all_decode es then ok es else err invalid_column

unfoldable pub stream_read_since : String → ℤ → ℤ → Streams → Result (List Event)
stream_read_since topic offset n s =
    decoded_events (limit n (order_by by_offset (select (is_since topic offset) s.events)))

abbrev pub is_consumer : String → String → Consumer → Bool
is_consumer name topic c = str_eq c.name name && str_eq c.topic topic

abbrev pub moved_to : ℤ → Consumer → Consumer
moved_to offset c = record c { offset = offset }

abbrev pub behind : ℤ → Consumer → Bool
behind offset c = ltb_ℤ c.offset offset

unfoldable pub stream_save_offset : String → String → ℤ → Action Streams ℕ
stream_save_offset name topic offset s =
    let key = is_consumer name topic in
    (
      ok (if writes key (behind offset) (find key s.consumers) then 1 else 0),
      record s {
        consumers =
            upsert key (record { name = name; topic = topic; offset = offset }) (behind offset)
              (moved_to offset) s.consumers;
      },
    )

abbrev pub offset_of : Option Consumer → ℤ
offset_of none = pos 0
offset_of (some c) = c.offset

unfoldable pub stream_get_offset : String → String → Streams → Result ℤ
stream_get_offset name topic s = ok (offset_of (find (is_consumer name topic) s.consumers))
