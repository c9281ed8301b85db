-- ===== src/Lib.antt =====
-- Verification of honker (in one SQLite file: a job queue, locks, rate limits, task results,
-- streams and a scheduler), after the Rust core in honker-core/src.
--
-- The program. Every binding calls the functions of honker-core/src/honker_ops.rs on a SQLite
-- connection. A function runs a few SQL statements on the `_honker_*` tables that
-- BOOTSTRAP_HONKER_SQL (honker-core/src/lib.rs) makes; those that must not stop half-way run in one
-- savepoint (`in_savepoint`). A job goes from `enqueue` (state pending or scheduled) to a claim
-- (processing, with a worker, a lease and one more attempt) and ends with an ack, a fail, a cancel or
-- an exhausted retry, in `_honker_dead` or deleted; a lapsed lease makes it claimable again. The
-- scheduler enqueues a job at each boundary of a periodic task.
--
-- The files.
--   Base       the names that all modules use: the libraries', tests, lists, integers (ℤ over the
--              native ℕ), `add_i64` (Rust's wrapping sum).
--   Action     Result, and operations `S → Result A × S` on a database S. A failing statement keeps
--              what was written before it, and `in_savepoint` undoes it: what the components rely on.
--              Children: what every run keeps, what a run's outcome
--              says of its parts.
--   Table      the SQL statements on a table as a list of rows: select, reject (DELETE), update,
--              limit, order_by, upsert (ON CONFLICT DO UPDATE), find. Children: counting rows, ORDER
--              BY with LIMIT over a total order, tables with a key.
--   Queue      the job queue. Rows (the tables, and the WHERE clauses), Claim (claim_batch,
--              sweep_expired, move_to_dead), Submit (enqueue), Finish (ack, ack_fenced, ack_batch,
--              retry, fail), Manage (cancel, heartbeat, get_job), Deadline (queue_next_claim_at) are
--              the code; Valid, History, Batch, Pick, Moves, Bury, Conserve, Retry, Fencing are about
--              it. `retry`/`retry_fenced` and `fail`/`fail_fenced` are one function each whose
--              attempt is an Option: `none` is the unfenced call.
--   Savepoint  in_savepoint of honker-core/src/honker_ops.rs with its undo, over a connection whose
--              commands may fail; Sqlite is what is used of SQLite, Undo and Refines are about
--              it.
--   Lock, RateLimit, Results, Stream, Scheduler   the other tables, with children on each.
--   Schema     bootstrap_honker_schema and migrate_claim_v2 of honker-core/src/lib.rs, the statements of
--              other processes that bootstrap between its own included; Migration (what each statement
--              keeps), Steps (what it leads to) and Installed are about them.
--   Pools      Writer and Readers of honker-core/src/lib.rs, the connections that threads share, as
--              interleaved steps: Writer/Progress and Readers/Bounds are about them.
--   Watcher    run_poll_loop and SharedUpdateWatcher of honker-core/src/lib.rs; Wakes is about them.
--   Cron       honker-core/src/cron.rs. Text (the operations of `str`), Field (parse_field), Expr
--              (ScheduleExpr::parse, CronSchedule::parse, parse_every_interval), Calendar (dates and
--              times without a zone, make_dt), Search (matches, next_or_first,
--              cron_next_after_naive), Zone (next_after_unix_in_tz, next_after_unix) are the code;
--              their children are about it: what a field stands for, where each move of the search
--              goes, the least match, the errors, when the result is later.
--   Sql        what attach_honker_functions registers: JobCalls, TableCalls and TaskCalls are the
--              functions, Registry their table and a call; Numbers (arguments that come as REAL) and
--              History (the invariants of all tables, with Sound*, Operations and Kept*) are about them.
--   Client     packages/honker-rs/src/lib.rs: Subscription is StreamSubscription (its children: what
--              it hands out and where the next one resumes), Leader the processes of Scheduler::run
--              that compete for its lock and how long a leader waits, Outbox is Outbox::run_once with
--              the delays of its retries.
--   Examples   tests, and each theorem at a concrete input.
--
-- Reading the model. A clock reading is an argument: each statement that says `unixepoch()` has its
-- own, and a function that reads the clock once and binds it has one. Integers are unbounded: SQLite's
-- sum past `i64` becomes a REAL, which the typed reads refuse (`in_i64`, `invalid_column`); sums made
-- in Rust wrap (`add_i64`). Ids and attempts are natural numbers. AUTOINCREMENT never reuses an id and
-- fails (`full`) past the last one. A primary key that stands already gives `constraint`. The order of
-- RETURNING rows, which SQLite leaves open, is the table's. The loop of
-- `scheduler_tick` counts down its limit of 64 fires (SCHEDULER_MAX_CATCHUP_FIRES), and the others of
-- the tables run over the rows. The two loops of the search for a boundary are on fuel. Each round
-- moves on by a second at least, so that as many rounds as the calendar has seconds are enough;
-- `next_after_unix` gives that many. `parse_field` fills a range in at most its end plus one rounds.
-- A date or a time without a zone is the number of days or seconds since the calendar's first day,
-- and a panic is the error `panicked`.
--
-- Parameters. The calendar and the time zone of the crate chrono are the records `Calendar` and
-- `TimeZone`; `IsCalendar` and `IsTimeZone` say what is used of them. SQLite's savepoints are the
-- record `Connection`, and `IsSqlite` says what is used of them. The scheduler's definitions take
-- the function for the next boundary as an argument, and Scheduler/Zones gives them
-- `next_after_unix` of honker-core/src/cron.rs. How rusqlite reads an argument is the record
-- `FromSql`, of which `IsFromSql` says what is used; `ack_items` is what SQLite's `json_each` reads
-- out of a text of ids. The delivery of an outbox is the caller's, and `from_slice`, which reads its
-- payload, serde_json's.
--
-- Not modelled: the text of JSON results and of error messages; failures of SQLite itself (a full
-- disk, a locked file), but those of the savepoint statements and of the calls of a stream's
-- subscription, of a leader's rounds and of an outbox's run; the wakes that cut a leader's wait short;
-- what chrono does; the indexes of the tables, but the two that a migration drops, and the tables of
-- the notifications; how a connection is opened; the threads of the watchers and their experimental
-- backends; the SQL function `honker_bootstrap`; of packages/honker-rs what is not named above; and
-- the other language bindings.

mod Base
pub mod Action
pub mod Client
pub mod Cron
pub mod Lock
pub mod Pools
pub mod Queue
pub mod RateLimit
pub mod Results
pub mod Savepoint
pub mod Scheduler
pub mod Schema
pub mod Sql
pub mod Stream
pub mod Table
pub mod Watcher
mod Examples
