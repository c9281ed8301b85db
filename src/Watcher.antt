-- ===== src/Watcher.antt =====
-- The update watcher: `run_poll_loop`, and `SharedUpdateWatcher` with its subscribers
-- (honker-core/src/lib.rs). What the calls of SQLite and of the file system answer in a round of the
-- loop is an input; the sleep between rounds and the other backends are not modelled.
pub mod Wakes
use honker.Base.{
  ℕ, ◌+◌, ◌%◌, ◌^◌, Bool, true, false, Option, none, some, List, [], ◌∷◌, map, ◌==◌, if◌then◌else◌,
}

-- The channel of a subscriber, of capacity 1: whether a tick is in it, whether the receiver still
-- exists, and whether its sender is in the map `senders`.
pub record Channel : Type 0 where
  pub id : ℕ
  pub ticked : Bool
  pub receiving : Bool
  pub sending : Bool

-- `next_id` wraps as a `u64`.
pub record Shared : Type 0 where
  pub channels : List Channel
  pub next_id : ℕ

abbrev pub no_subscribers : Shared
no_subscribers = record { channels = []; next_id = 0 }

abbrev pub fresh : ℕ → Channel
fresh id = record { id = id; ticked = false; receiving = true; sending = true }

abbrev pub subscribe : Shared → ℕ × Shared
subscribe s = (
  s.next_id,
  record { channels = fresh s.next_id ∷ s.channels; next_id = (s.next_id + 1) % 2 ^ 64 },
)

abbrev pub disconnect : Channel → Channel
disconnect c = record c { sending = false }

abbrev pub unsubscribe : ℕ → Shared → Shared
unsubscribe id s = record s {
  channels = map (λ c. if c.id == id then disconnect c else c) s.channels;
}

-- `senders.lock().clear()`, in `close` and in the drop of `WatcherDeathGuard`.
abbrev pub clear_senders : List Channel → List Channel
clear_senders cs = map disconnect cs

abbrev pub subscriber_count : List Channel → ℕ
subscriber_count [] = 0
subscriber_count (c ∷ cs) = (if c.sending then 1 else 0) + subscriber_count cs

-- `try_send`: a full channel keeps its tick, and a sender without a receiver is taken out.
abbrev pub try_send : Channel → Channel
try_send c =
    if c.sending then (if c.receiving then record c { ticked = true } else disconnect c) else c

-- The closure that the watcher runs on a change.
abbrev pub on_change : List Channel → List Channel
on_change cs = map try_send cs

-- `recv` of a subscriber's tick.
abbrev pub recv : ℕ → List Channel → List Channel
recv id cs = map (λ c. if c.id == id then record c { ticked = false } else c) cs

-- What `PRAGMA data_version` answers.
pub data Query : Type 0 where
  version : ℕ → Query
  locked failed : Query

-- What opening a connection again answers; its version may not be readable.
pub data Reopen : Type 0 where
  reopened : Option ℕ → Reopen
  refused : Reopen

-- What the check of the file's identity finds, if it is due.
pub data Identity : Type 0 where
  not_due same replaced unreadable : Identity

pub record Answers : Type 0 where
  pub query : Query
  pub reopen : Reopen
  pub identity : Identity

pub record Poll : Type 0 where
  pub connected : Bool
  pub last_version : ℕ
  pub running : Bool
  pub channels : List Channel

abbrev pub or_zero : Option ℕ → ℕ
or_zero none = 0
or_zero (some v) = v

abbrev pub changed : Poll → Poll
changed p = record p { channels = on_change p.channels }

abbrev pub poll_query : Query → Poll → Poll
poll_query (version v) p =
    if v == p.last_version then p else changed (record p { last_version = v })
poll_query locked p = p
poll_query failed p = changed (record p { connected = false })

abbrev pub poll_reopen : Reopen → Poll → Poll
poll_reopen (reopened v) p = record p { connected = true; last_version = or_zero v }
poll_reopen refused p = p

-- The panic of the thread drops the closure, and with it the guard.
abbrev pub check_identity : Identity → Poll → Poll
check_identity not_due p = p
check_identity same p = p
check_identity replaced p = record p { running = false; channels = clear_senders p.channels }
check_identity unreadable p = changed (record p { connected = false })

-- The connection that the thread opens first, and its baseline.
abbrev pub start_poll : Reopen → List Channel → Poll
start_poll (reopened v) cs = record {
  connected = true;
  last_version = or_zero v;
  running = true;
  channels = cs;
}
start_poll refused cs = record {
  connected = false;
  last_version = 0;
  running = true;
  channels = cs;
}

-- A round of the loop, by whether there is a connection.
abbrev pub poll_body : Bool → Answers → Poll → Poll
poll_body true a p = check_identity a.identity (poll_query a.query p)
poll_body false a p = check_identity a.identity (poll_reopen a.reopen p)

abbrev pub poll_while : Bool → Answers → Poll → Poll
poll_while true a p = poll_body p.connected a p
poll_while false a p = p

unfoldable pub poll_round : Answers → Poll → Poll
poll_round a p = poll_while p.running a p

unfoldable pub run_poll_loop : List Answers → Poll → Poll
unfolding poll_round
run_poll_loop [] p = p
run_poll_loop (a ∷ rest) p = run_poll_loop rest (poll_round a p)
