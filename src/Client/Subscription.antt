-- ===== src/Client/Subscription.antt =====
-- `StreamSubscription`: a named consumer that iterates over the events of a topic
-- (packages/honker-rs/src/lib.rs).
pub mod Delivery
pub mod Turns
pub mod Once
pub mod Saved
pub mod Marked
pub mod Resume
use honker.Base.Int.{ℤ, pos, ltb_ℤ, leb_ℤ, ◌-ℤ◌, wrap_i64}
use honker.Base.{Bool, List, ℕ, String, ◌&&◌, Option, [], ◌∷◌, ◌++◌, ltb, if◌then◌else◌}
use honker.Action.{err, Result, Action, ok}
use honker.Client.{with_conn}
use honker.Stream.{
  stream_save_offset, Streams, stream_publish, stream_get_offset, stream_read_since, Event,
}

-- The receiver of wakes and its id are those of Watcher.
pub record Subscription : Type 0 where
  pub topic : String
  pub consumer : String
  pub last_offset : ℤ
  pub last_saved : ℤ
  pub save_every_n : ℤ
  pub pending : List Event

-- A subscription and the tables that it reads and writes.
pub record Session : Type 0 where
  pub sub : Subscription
  pub streams : Streams

-- What one turn of the loop in `next` comes to: the iterator returns an item, or it waits for a wake.
pub data Turn : Type 0 where
  item : Result Event → Turn
  waits : Turn

abbrev pub opened : String → String → Result ℤ → Result Subscription
opened consumer topic (ok offset) = ok (record {
  topic = topic;
  consumer = consumer;
  last_offset = offset;
  last_saved = offset;
  save_every_n = pos 1000;
  pending = [];
})
opened consumer topic (err e) = err e

unfoldable pub subscribe : String → String → Streams → Result Subscription
subscribe consumer topic s = opened consumer topic (stream_get_offset consumer topic s)

abbrev pub save_every : ℤ → Subscription → Subscription
save_every n u = record u { save_every_n = n }

-- `n` is what `honker_stream_save_offset` returned.
abbrev pub noted : ℕ → Subscription → Subscription
noted n u = if ltb 0 n then record u { last_saved = u.last_offset } else u

abbrev pub after_save : Result ℕ × Streams → Subscription → Result (Unit {0}) × Session
after_save (ok n, s) u = (ok tt, record { sub = noted n u; streams = s })
after_save (err e, s) u = (err e, record { sub = u; streams = s })

abbrev pub save_call : Subscription → Streams → Result (Unit {0}) × Session
save_call u s = after_save (stream_save_offset u.consumer u.topic u.last_offset s) u

-- A call that is `down` is one that `with_conn` fails.
unfoldable pub save_offset : Bool → Action Session Unit
save_offset down x =
    if ltb_ℤ x.sub.last_saved x.sub.last_offset
    then with_conn down (λ (y : Session). save_call y.sub y.streams) x
    else (ok tt, x)

abbrev pub refilled : Result (List Event) → Action Session Unit
refilled (ok es) x = (ok tt, record x { sub = record x.sub { pending = x.sub.pending ++ es } })
refilled (err e) x = (err e, x)

abbrev pub read_call : Action Session Unit
read_call x = refilled (stream_read_since x.sub.topic x.sub.last_offset (pos 100) x.streams) x

unfoldable pub refill : Bool → Action Session Unit
refill down x = with_conn down read_call x

-- The difference wraps around, as in a release build.
abbrev pub is_save_due : Subscription → Bool
is_save_due u =
    ltb_ℤ (pos 0) u.save_every_n && leb_ℤ u.save_every_n (wrap_i64 (u.last_offset -ℤ u.last_saved))

abbrev pub hand_out : Event → Result (Unit {0}) × Session → Turn × Session
hand_out e (ok _, x) = (item (ok e), x)
hand_out e (err er, x) = (item (err er), x)

abbrev pub popped : Event → List Event → Session → Session
popped e rest x = record x { sub = record x.sub { last_offset = pos e.offset; pending = rest } }

-- The body of `if let Some(ev) = self.pending.pop_front()`.
unfoldable pub pop : Bool → Event → List Event → Session → Turn × Session
pop down e rest x =
    let y = popped e rest x in
    if is_save_due y.sub then hand_out e (save_offset down y) else (item (ok e), y)

abbrev pub pop_pending : Bool → List Event → Session → Turn × Session
pop_pending down [] x = (waits, x)
pop_pending down (e ∷ rest) x = pop down e rest x

abbrev pub after_refill : Bool → Result (Unit {0}) × Session → Turn × Session
after_refill down (ok _, x) = pop_pending down x.sub.pending x
after_refill down (err e, x) = (item (err e), x)

abbrev pub from_pending : (read save : Bool) → List Event → Session → Turn × Session
from_pending read save [] x = after_refill save (refill read x)
from_pending read save (e ∷ rest) x = pop save e rest x

-- `next`, from its start or from a wake, until it returns or waits for a wake. `read` and `save` say
-- which of its calls are down.
unfoldable pub next : (read save : Bool) → Session → Turn × Session
next read save x = from_pending read save x.sub.pending x

-- What `drop` writes, besides the end of the receiver.
unfoldable pub dropped : Bool → Session → Streams
dropped down x = (save_offset down x).1.streams

-- What can happen to a subscription and its tables: an event is published to any topic, an offset of
-- any consumer is saved, and the subscription is iterated, saved, or given another batch size.
pub data Act : Type 0 where
  publishes : (topic : String) (key : Option String) (payload : String) (created : ℤ) → Act
  saves_for : (consumer topic : String) (offset : ℤ) → Act
  iterates : (read save : Bool) → Act
  saves : (down : Bool) → Act
  batches : (n : ℤ) → Act

abbrev pub handed : Turn → List Event
handed (item (ok e)) = e ∷ []
handed (item (err e)) = []
handed waits = []

-- The events that an act hands to the caller.
unfoldable pub act : Act → Session → List Event × Session
act (publishes topic key payload created) x =
    ([], record x { streams = (stream_publish topic key payload created x.streams).1 })
act (saves_for consumer topic offset) x =
    ([], record x { streams = (stream_save_offset consumer topic offset x.streams).1 })
act (iterates read save) x = let (t, y) = next read save x in (handed t, y)
act (saves down) x = ([], (save_offset down x).1)
act (batches n) x = ([], record x { sub = save_every n x.sub })

unfoldable pub run : List Act → Session → List Event × Session
run [] x = ([], x)
run (a ∷ rest) x = let (es, y) = act a x in let (fs, z) = run rest y in (es ++ fs, z)
