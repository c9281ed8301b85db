-- ===== src/Examples.antt =====
-- Runs of the model on small databases, and each general theorem at a concrete input.
mod Queue
mod Deadline
mod Retry
mod Companions
mod Scheduler
mod Pools
mod Watcher
mod Readers
mod Savepoint
mod Cron
mod Zone
mod Repeated
mod Client
mod Sql
mod Outbox
mod Schema
