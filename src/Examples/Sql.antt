-- ===== src/Examples/Sql.antt =====
-- Calls of the SQL functions on an empty database.
use honker.Sql.History.{run_calls-Sound, run_calls, SqlCall}
use honker.Sql.Numbers.{call-as_integer, as_integer}
use honker.Base.{ℕ, ◌+◌, String, ◌≡◌, refl, List, [], ◌∷◌, map, arith, none, some}
use honker.Action.{ok, Result, err, no_such_function, bad_argument}
use honker.Sql.{
  whole, real, null, text, Database, integer, context, Value, arg_i64, arg_opt_i64, real_to_i64,
  IsFromSql, FromSql,
}
use honker.Queue.Finish.{AckItem}
use honker.Queue.Valid.{empty-IsValid, empty}
use honker.Base.Int.{ℤ, pos, ◌+ℤ◌}
use honker.Sql.Operations.{Sound}
use honker.Sql.TaskCalls.{honker_scheduler_register_max}
use honker.Sql.Registry.{call}
use honker.Scheduler.{scheduler_register}
use honker.Queue.Submit.{check_max_attempts}

abbrev each_minute : String → ℤ → Result ℤ
each_minute expr now = ok (now +ℤ pos 60)

abbrev no_items : String → Result (List AckItem)
no_items ids_json = ok []

-- A reader that takes values of the type that is asked for.
abbrev rusqlite : FromSql
rusqlite = record {
  get_i64 = λ v. elim v [ integer z ↦ ok z | _ ↦ err bad_argument ];
  get_opt_i64 = λ v. elim v [ null ↦ ok none | integer z ↦ ok (some z) | _ ↦ err bad_argument ];
  get_string = λ v. elim v [ text s ↦ ok s | _ ↦ err bad_argument ];
  get_opt_string = λ v. elim v [ null ↦ ok none | text s ↦ ok (some s) | _ ↦ err bad_argument ];
}

rusqlite-IsFromSql : IsFromSql rusqlite
rusqlite-IsFromSql = record {
  i64 = λ z. refl;
  opt_i64 = λ z. refl;
  string = λ z f. refl;
  opt_string = λ z f. refl;
}

abbrev empty_db : Database
empty_db = record {
  jobs = empty;
  locks = [];
  windows = [];
  results = [];
  streams = record { events = []; next_offset = 1; consumers = [] };
  tasks = [];
}

empty_db-Sound : Sound empty_db
empty_db-Sound = record {
  jobs = empty-IsValid;
  locks = λ n. omega arith;
  windows = λ k. omega arith;
  results = λ k. omega arith;
  streams = record {
    ordered = record { increasing = tt; fresh = omega arith };
    consumers = λ k. omega arith;
  };
  tasks = record { names = λ n. omega arith; budgets = tt };
}

abbrev at_hundred : ℕ → ℤ
at_hundred i = pos (100 + i)

-- A client that binds its numbers as REAL.
abbrev register_args : List Value
register_args =
    text "nightly"
    ∷ text "reports"
    ∷ text "@every 1m"
    ∷ text "{}"
    ∷ real (whole (pos 0))
    ∷ null
    ∷ real (whole (pos 5))
    ∷ []

abbrev some_calls : List SqlCall
some_calls =
    record { name = "honker_scheduler_register"; args = register_args; clock = at_hundred }
    ∷ record { name = "honker_scheduler_tick"; args = integer (pos 500) ∷ []; clock = at_hundred }
    ∷ record { name = "honker_ack"; args = text "x" ∷ text "w" ∷ []; clock = at_hundred }
    ∷ []

run_calls-Sound_example : Sound (run_calls each_minute no_items rusqlite some_calls empty_db)
run_calls-Sound_example =
    run_calls-Sound each_minute no_items rusqlite some_calls empty_db empty_db-Sound

call-as_integer_example :
    call each_minute no_items rusqlite "honker_scheduler_register"
      (map as_integer register_args)
      at_hundred
      empty_db
    ≡ call each_minute no_items rusqlite "honker_scheduler_register" register_args at_hundred
        empty_db
call-as_integer_example =
    call-as_integer each_minute no_items rusqlite rusqlite-IsFromSql "honker_scheduler_register"
      register_args at_hundred empty_db

-- Registered with the budget that came as REAL; without its argument `priority` it is no function.
registered :
    (map
        (λ t. t.max_attempts)
        (call each_minute no_items rusqlite "honker_scheduler_register" register_args at_hundred
          empty_db).1.tasks
      ≡ pos 5 ∷ [])
    × ((call each_minute no_items rusqlite "honker_scheduler_register"
          (text "nightly" ∷ [])
          at_hundred
          empty_db).0
        ≡ err no_such_function)
unfolding call context arg_i64 arg_opt_i64 real_to_i64 honker_scheduler_register_max
    scheduler_register check_max_attempts
registered = (refl, refl)
