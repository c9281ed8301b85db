-- ===== src/Schema.antt =====
-- `bootstrap_honker_schema` and `migrate_claim_v2` (honker-core/src/lib.rs): the tables, brought up
-- to date in a database that an older build may have written.
pub mod Migration
pub mod Steps
pub mod Installed
use honker.Base.{Bool, true, false, not, ◌&&◌, ◌||◌, ℕ, String, List, [], ◌∷◌, if◌then◌else◌, ◌==◌}
use honker.Base.Int.{ℤ, pos, ltb_ℤ, leb_ℤ}
use honker.Action.{
  Action, Result, ok, err, pure, raise, in_savepoint, duplicate_column, constraint, ◌>>=◌, ◌>>◌,
}
use honker.Table.{select, reject, update}
use honker.Queue.Claim.{to_dead, conflicts}
use honker.Queue.Moves.{moved}
use honker.Queue.Rows.{Jobs, Row, State, is_pending, is_scheduled, scheduled}

pub data SchemaTable : Type 0 where
  live_table dead_table locks_table rate_limits_table tasks_table results_table : SchemaTable
  stream_table stream_consumers_table : SchemaTable

-- The columns that builds have added since.
pub data Column : Type 0 where
  enabled max_attempts claimed_at : Column

abbrev pub table_code : SchemaTable → ℕ
table_code live_table = 0
table_code dead_table = 1
table_code locks_table = 2
table_code rate_limits_table = 3
table_code tasks_table = 4
table_code results_table = 5
table_code stream_table = 6
table_code stream_consumers_table = 7

abbrev pub same_table : SchemaTable → SchemaTable → Bool
same_table t u = table_code t == table_code u

abbrev pub same_column : Column → Column → Bool
same_column enabled enabled = true
same_column max_attempts max_attempts = true
same_column claimed_at claimed_at = true
same_column _ _ = false

abbrev pub table_of : Column → SchemaTable
table_of enabled = tasks_table
table_of max_attempts = tasks_table
table_of claimed_at = live_table

-- `claim_index` is LEGACY_CLAIM_INDEX, and `deadline_index` the other index of older builds.
pub record Database : Type 0 where
  pub tables : SchemaTable → Bool
  pub columns : Column → Bool
  pub claim_index : Bool
  pub deadline_index : Bool
  pub jobs : Jobs

-- CREATE TABLE IF NOT EXISTS: a table that is there keeps the columns that it has.
abbrev pub create_table : SchemaTable → Database → Database
create_table t db = if db.tables t then db else record db {
  tables = λ u. same_table t u || db.tables u;
  columns = λ c. same_table t (table_of c) || db.columns c;
}

-- In the order of BOOTSTRAP_HONKER_SQL.
abbrev pub all_tables : List SchemaTable
all_tables =
    live_table ∷ dead_table ∷ locks_table ∷ rate_limits_table ∷ tasks_table ∷ results_table
    ∷ stream_table ∷ stream_consumers_table ∷ []

unfoldable pub create_all : List SchemaTable → Database → Database
create_all [] db = db
create_all (t ∷ ts) db = create_all ts (create_table t db)

unfoldable pub create_tables : Action Database Unit
unfolding create_all
create_tables db = (ok tt, create_all all_tables db)

-- ALTER TABLE ... ADD COLUMN
unfoldable pub add_column : Column → Action Database Unit
add_column c db =
    if db.columns c
    then (err duplicate_column, db)
    else (ok tt, record db { columns = λ d. same_column c d || db.columns d })

abbrev pub is_future : ℤ → Row → Bool
is_future now r = is_pending r.state && ltb_ℤ now r.run_at

abbrev pub is_spent : Row → Bool
is_spent r = (is_pending r.state || is_scheduled r.state) && leb_ℤ r.max_attempts (pos r.attempts)

abbrev pub delayed : Row → Row
delayed r = record r { state = scheduled }

-- The batch's UPDATE, which reads the clock as `now`.
abbrev pub hold_back : ℤ → Jobs → Jobs
hold_back now db = record db { live = update (is_future now) delayed db.live }

-- Its INSERT and DELETE. `died` is what the default of `died_at` reads.
unfoldable pub bury_spent : ℤ → Action Jobs Unit
bury_spent died db =
    if conflicts db.dead (select is_spent db.live)
    then (err constraint, db)
    else (ok tt, moved is_spent died "max attempts exceeded" db)

abbrev pub drop_indexes : Database → Database
drop_indexes db = record db { claim_index = false; deadline_index = false }

abbrev pub buried_jobs : Result (Unit {0}) × Jobs → Action Database Unit
buried_jobs (ok _, jobs) db = (ok tt, drop_indexes (record db { jobs = jobs }))
buried_jobs (err e, jobs) db = (err e, record db { jobs = jobs })

-- The body of the savepoint: the marker is tested again under the lock.
unfoldable pub migrate : ℤ → ℤ → Action Database Unit
migrate now died db =
    if db.claim_index then buried_jobs (bury_spent died (hold_back now db.jobs)) db else (ok tt, db)

unfoldable pub migrate_locked : ℤ → ℤ → Action Database Unit
migrate_locked now died = in_savepoint (migrate now died)

-- What a process that bootstraps at the same time does to the database, a statement at a time.
pub data Change : Type 0 where
  creates : Change
  adds : Column → Change
  migrates : (now died : ℤ) → Change

abbrev pub change : Change → Database → Database
change creates db = (create_tables db).1
change (adds c) db = (add_column c db).1
change (migrates now died) db = (migrate_locked now died db).1

unfoldable pub meanwhile : List Change → Database → Database
meanwhile [] db = db
meanwhile (c ∷ cs) db = meanwhile cs (change c db)

abbrev pub swallow_duplicate : Result (Unit {0}) × Database → Result (Unit {0}) × Database
swallow_duplicate (err duplicate_column, db) = (ok tt, db)
swallow_duplicate other = other

-- The test for a column, and its ALTER TABLE. `others` is what other processes do between the two.
unfoldable pub ensure_column : Column → List Change → Action Database Unit
ensure_column c others db =
    let seen = db.columns c in
    let later = meanwhile others db in
    if seen then (ok tt, later) else swallow_duplicate (add_column c later)

unfoldable pub migrate_claim_v2 : List Change → ℤ → ℤ → Action Database Unit
migrate_claim_v2 others now died db =
    let seen = db.claim_index in
    let later = meanwhile others db in
    if seen then migrate_locked now died later else (ok tt, later)

abbrev pub gap : List Change → Action Database Unit
gap others db = (ok tt, meanwhile others db)

-- `between` is what other processes do between the statements.
unfoldable pub bootstrap_honker_schema : (ℕ → List Change) → ℤ → ℤ → Action Database Unit
bootstrap_honker_schema between now died = do
  create_tables
  gap (between 0)
  ensure_column enabled (between 1)
  gap (between 2)
  ensure_column max_attempts (between 3)
  gap (between 4)
  ensure_column claimed_at (between 5)
  gap (between 6)
  migrate_claim_v2 (between 7) now died
