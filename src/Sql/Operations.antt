-- ===== src/Sql/Operations.antt =====
-- An operation on one table keeps the invariants of all of them (honker-core/src/honker_ops.rs).
use honker.Base.{ℕ, List, String}
use honker.Action.{lift, Result, Action, ◌>>=◌}
use honker.Lock.{Lock}
use honker.RateLimit.{Window}
use honker.Scheduler.{Task}
use honker.Stream.{Streams}
use honker.Results.{of_job, StoredResult}
use honker.Sql.{
  on_streams, Reply, on_jobs, on_results, on_windows, Database, on_tasks, asks, on_locks,
}
use honker.Queue.Valid.{Preserves-Preorder, IsValid, Preserves}
use honker.Queue.Rows.{Jobs}
use honker.Lock.Exclusion.{IsUnique}
use honker.Base.Int.{pos, ℤ, negsuc}
use honker.Sql.SoundTasks.{lifted-Keeps}
use honker.Sql.Sound.{StreamsSound, OncePerKey, Holds, window_key, TasksSound}
use honker.Sql.TaskCalls.{on_schedule}
use honker.Sql.SoundTick.{ScheduleSound}
use honker.Sql.JobCalls.{by_attempt, by_number}
use honker.Scheduler.Tick.{Fire, Schedule}
use honker.Action.Keeps.{Keeps, Keeps-pure}
use honker.Queue.Finish.{ack_fenced, ack_batch, AckItem, ack}
use honker.Queue.Manage.{cancel_in_queue, cancel}
use honker.Queue.Valid.Calls.{delete_where-Preserves}

-- The invariants of every table.
pub record Sound (db : Database) : Type 0 where
  pub jobs : IsValid db.jobs
  pub locks : IsUnique db.locks
  pub windows : OncePerKey window_key db.windows
  pub results : OncePerKey of_job db.results
  pub streams : StreamsSound db.streams
  pub tasks : TasksSound db.tasks

abbrev pub KeepsAll : Action Database Reply → Type 0
KeepsAll m = Keeps (Holds Sound) m

pub reads :
    {A : Type 0} (r : Result A) {f : A → Action Database Reply}
    → ((a : A) → KeepsAll (f a))
    → KeepsAll (lift r >>= f)
reads r {f} k = lifted-Keeps Sound r f k

module _ {A : Type 0} (show : A → Reply) where
  pub query : (q : Database → Result A) → KeepsAll (asks show q)
  query q = record { at = λ s h. h }

  pub job_op : {m : Action Jobs A} → Keeps Preserves m → KeepsAll (on_jobs show m)
  job_op k = record {
    at = λ s h. record {
      jobs = k.at s.jobs h.jobs;
      locks = h.locks;
      windows = h.windows;
      results = h.results;
      streams = h.streams;
      tasks = h.tasks;
    };
  }

  pub lock_op : {m : Action (List Lock) A} → Keeps (Holds IsUnique) m → KeepsAll (on_locks show m)
  lock_op k = record {
    at = λ s h. record {
      jobs = h.jobs;
      locks = k.at s.locks h.locks;
      windows = h.windows;
      results = h.results;
      streams = h.streams;
      tasks = h.tasks;
    };
  }

  pub window_op :
      {m : Action (List Window) A}
      → Keeps (Holds (OncePerKey window_key)) m
      → KeepsAll (on_windows show m)
  window_op k = record {
    at = λ s h. record {
      jobs = h.jobs;
      locks = h.locks;
      windows = k.at s.windows h.windows;
      results = h.results;
      streams = h.streams;
      tasks = h.tasks;
    };
  }

  pub result_op :
      {m : Action (List StoredResult) A}
      → Keeps (Holds (OncePerKey of_job)) m
      → KeepsAll (on_results show m)
  result_op k = record {
    at = λ s h. record {
      jobs = h.jobs;
      locks = h.locks;
      windows = h.windows;
      results = k.at s.results h.results;
      streams = h.streams;
      tasks = h.tasks;
    };
  }

  pub stream_op :
      {m : Action Streams A} → Keeps (Holds StreamsSound) m → KeepsAll (on_streams show m)
  stream_op k = record {
    at = λ s h. record {
      jobs = h.jobs;
      locks = h.locks;
      windows = h.windows;
      results = h.results;
      streams = k.at s.streams h.streams;
      tasks = h.tasks;
    };
  }

  pub task_op : {m : Action (List Task) A} → Keeps (Holds TasksSound) m → KeepsAll (on_tasks show m)
  task_op k = record {
    at = λ s h. record {
      jobs = h.jobs;
      locks = h.locks;
      windows = h.windows;
      results = h.results;
      streams = h.streams;
      tasks = k.at s.tasks h.tasks;
    };
  }

pub schedule_op :
    {m : Action Schedule (List Fire)} → Keeps (Holds ScheduleSound) m → KeepsAll (on_schedule m)
schedule_op k = record {
  at = λ s h.
      let after =
        k.at (record { tasks = s.tasks; jobs = s.jobs })
          (record { tasks = h.tasks; jobs = h.jobs }) in
      record {
        jobs = after.jobs;
        locks = h.locks;
        windows = h.windows;
        results = h.results;
        streams = h.streams;
        tasks = after.tasks;
      };
}

pub by_number-Preserves :
    (id : ℤ) {f : ℕ → Action Jobs ℕ}
    → ((n : ℕ) → Keeps Preserves (f n))
    → Keeps Preserves (by_number id f)
by_number-Preserves (pos n) k = k n
by_number-Preserves (negsuc n) k = Keeps-pure Preserves-Preorder 0

pub by_attempt-Preserves :
    (id attempt : ℤ) {f : ℕ → ℕ → Action Jobs ℕ}
    → ((n a : ℕ) → Keeps Preserves (f n a))
    → Keeps Preserves (by_attempt id attempt f)
by_attempt-Preserves id attempt k = by_number-Preserves id (λ n. by_number-Preserves attempt (k n))

pub ack-Preserves : (n : ℕ) (worker : String) (now : ℤ) → Keeps Preserves (ack n worker now)
unfolding ack
ack-Preserves n worker now = delete_where-Preserves _

pub ack_fenced-Preserves :
    (n : ℕ) (worker : String) (a : ℕ) → Keeps Preserves (ack_fenced n worker a)
unfolding ack_fenced
ack_fenced-Preserves n worker a = delete_where-Preserves _

pub ack_batch-Preserves :
    (items : List AckItem) (worker : String) (now : ℤ)
    → Keeps Preserves (ack_batch items worker now)
unfolding ack_batch
ack_batch-Preserves items worker now = delete_where-Preserves _

pub cancel-Preserves : (n : ℕ) → Keeps Preserves (cancel n)
unfolding cancel
cancel-Preserves n = delete_where-Preserves _

pub cancel_in_queue-Preserves : (queue : String) (n : ℕ) → Keeps Preserves (cancel_in_queue queue n)
unfolding cancel_in_queue
cancel_in_queue-Preserves queue n = delete_where-Preserves _
