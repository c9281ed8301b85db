-- ===== src/Sql.antt =====
-- The SQL functions of the engine: how they read their arguments, and the database that they work on
-- (honker-core/src/honker_ops.rs, `attach_honker_functions`).
pub mod JobCalls
pub mod TableCalls
pub mod TaskCalls
pub mod Registry
pub mod Numbers
pub mod Sound
pub mod SoundTasks
pub mod SoundTick
pub mod Operations
pub mod KeptJobs
pub mod KeptTables
pub mod KeptTasks
pub mod History
use honker.Base.{Bool, ℕ, String, Option, none, some, List, if◌then◌else◌, ◌≡◌}
use honker.Action.{bad_argument, Action, Result, ok, err}
use honker.Lock.{Lock}
use honker.RateLimit.{Window}
use honker.Scheduler.{Task}
use honker.Stream.{Event, Streams}
use honker.Results.{StoredResult}
use honker.Queue.Claim.{Claimed}
use honker.Queue.Rows.{Row, Jobs}
use honker.Base.Int.{in_i64, ℤ}
use honker.Scheduler.Tick.{Fire}

-- What an f64 is for `real_to_i64`: a whole number, or a number with a fractional part, or neither.
pub data Real : Type 0 where
  whole : ℤ → Real
  fractional : Real
  infinite : Real
  not_a_number : Real

-- A value that SQLite passes to a function.
pub data Value : Type 0 where
  null : Value
  integer : ℤ → Value
  real : Real → Value
  text : String → Value
  blob : Value

unfoldable pub real_to_i64 : Real → Result ℤ
real_to_i64 (whole z) = if in_i64 z then ok z else err bad_argument
real_to_i64 _ = err bad_argument

-- rusqlite's `Context::get` at the types that are read.
pub record FromSql : Type 0 where
  pub get_i64 : Value → Result ℤ
  pub get_opt_i64 : Value → Result (Option ℤ)
  pub get_string : Value → Result String
  pub get_opt_string : Value → Result (Option String)

-- An INTEGER is read as it is, and a string is read from no number, of whatever type.
pub record IsFromSql (g : FromSql) : Type 0 where
  pub i64 : (z : ℤ) → g.get_i64 (integer z) ≡ ok z
  pub opt_i64 : (z : ℤ) → g.get_opt_i64 (integer z) ≡ ok (some z)
  pub string : (z : ℤ) (f : Real) → g.get_string (integer z) ≡ g.get_string (real f)
  pub opt_string : (z : ℤ) (f : Real) → g.get_opt_string (integer z) ≡ g.get_opt_string (real f)

abbrev pub map_some : Result ℤ → Result (Option ℤ)
map_some (ok z) = ok (some z)
map_some (err e) = err e

module _ (g : FromSql) where
  unfoldable pub arg_i64 : Value → Result ℤ
  unfolding real_to_i64
  arg_i64 (real f) = real_to_i64 f
  arg_i64 v = g.get_i64 v

  unfoldable pub arg_opt_i64 : Value → Result (Option ℤ)
  unfolding real_to_i64
  arg_opt_i64 (real f) = map_some (real_to_i64 f)
  arg_opt_i64 v = g.get_opt_i64 v

-- The readings of the arguments, by position.
pub record Context : Type 0 where
  pub i64 : ℕ → Result ℤ
  pub opt_i64 : ℕ → Result (Option ℤ)
  pub get_text : ℕ → Result String
  pub opt_text : ℕ → Result (Option String)

unfoldable pub context : FromSql → (ℕ → Value) → Context
unfolding arg_i64 arg_opt_i64
context g args = record {
  i64 = λ i. arg_i64 g (args i);
  opt_i64 = λ i. arg_opt_i64 g (args i);
  get_text = λ i. g.get_string (args i);
  opt_text = λ i. g.get_opt_string (args i);
}

pub record Database : Type 0 where
  pub jobs : Jobs
  pub locks : List Lock
  pub windows : List Window
  pub results : List StoredResult
  pub streams : Streams
  pub tasks : List Task

-- What a function returns; the texts of JSON results are not modelled.
pub data Reply : Type 0 where
  number : ℕ → Reply
  unix_time : ℤ → Reply
  claimed_jobs : List Claimed → Reply
  job_row : Option Row → Reply
  result_value : Option String → Reply
  event_rows : List Event → Reply
  fired_jobs : List Fire → Reply
  task_rows : List Task → Reply

-- A function's closure: its arguments, the successive readings of the clock in its statements, and
-- what it does.
abbrev pub Body : Type 0
Body = Context → (ℕ → ℤ) → Action Database Reply

abbrev pub shown : {A : Type 0} → (A → Reply) → Result A → Result Reply
shown show (ok a) = ok (show a)
shown show (err e) = err e

-- An operation on one table is one on the database.
module _ {A : Type 0} (show : A → Reply) where
  abbrev pub on_jobs : Action Jobs A → Action Database Reply
  on_jobs m db = let (r, t) = m db.jobs in (shown show r, record db { jobs = t })

  abbrev pub on_locks : Action (List Lock) A → Action Database Reply
  on_locks m db = let (r, t) = m db.locks in (shown show r, record db { locks = t })

  abbrev pub on_windows : Action (List Window) A → Action Database Reply
  on_windows m db = let (r, t) = m db.windows in (shown show r, record db { windows = t })

  abbrev pub on_results : Action (List StoredResult) A → Action Database Reply
  on_results m db = let (r, t) = m db.results in (shown show r, record db { results = t })

  abbrev pub on_streams : Action Streams A → Action Database Reply
  on_streams m db = let (r, t) = m db.streams in (shown show r, record db { streams = t })

  abbrev pub on_tasks : Action (List Task) A → Action Database Reply
  on_tasks m db = let (r, t) = m db.tasks in (shown show r, record db { tasks = t })

  -- A query.
  abbrev pub asks : (Database → Result A) → Action Database Reply
  asks q db = (shown show (q db), db)
