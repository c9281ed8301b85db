-- ===== src/Client.antt =====
-- The Rust wrapper (packages/honker-rs/src/lib.rs): what it builds on the calls of the engine.
pub mod Subscription
pub mod Leader
pub mod Outbox
use honker.Action.{Action, busy, err}
use honker.Base.{Bool, true, false}

-- `with_conn`: SQLite may refuse the connection or the statement, and then nothing is done.
abbrev pub with_conn {ℓ} : {S A : Type ℓ} → Bool → Action S A → Action S A
with_conn true call s = (err busy, s)
with_conn false call s = call s
