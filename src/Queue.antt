-- ===== src/Queue.antt =====
-- The job queue of honker-core/src/honker_ops.rs: the tables `_honker_live` and `_honker_dead`.
pub mod Rows
pub mod Claim
pub mod Submit
pub mod Finish
pub mod Manage
pub mod Moves
pub mod Bury
pub mod Conserve
pub mod Pick
pub mod Valid
pub mod History
pub mod Batch
pub mod Retry
pub mod Fencing
pub mod Deadline
