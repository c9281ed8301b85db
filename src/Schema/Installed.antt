-- ===== src/Schema/Installed.antt =====
-- A bootstrap while other processes bootstrap too (honker-core/src/lib.rs, `bootstrap_honker_schema`).
use honker.Base.{true, false, ◌≡◌, refl, List, [], ◌∷◌, All, ℕ, ◌≤◌, ap}
use honker.Base.Int.{ℤ}
use honker.Action.{ok}
use honker.Schema.{
  Database, Change, SchemaTable, ensure_column, Column, create_tables, meanwhile, claimed_at,
  enabled, max_attempts, migrate_claim_v2, bootstrap_honker_schema, create_all, all_tables,
}
use honker.Schema.Migration.{IsUpgradable, IsClaimable}
use honker.Queue.Rows.{tally}
use honker.Schema.Steps.{
  then-Leads, Leads, Progress, gap-Leads, ensure_column-Leads, migrate_claim_v2-Leads, created_at,
}

-- The schema is the current one, no id stands twice, and every waiting job can be claimed.
pub record IsInstalled (db : Database) : Type 0 where
  pub tables : (t : SchemaTable) → db.tables t ≡ true
  pub columns : (c : Column) → db.columns c ≡ true
  pub marker : db.claim_index ≡ false
  pub distinct : (i : ℕ) → tally i db.jobs ≤ 1
  pub claimable : All IsClaimable db.jobs.live

abbrev pub all_columns : List Column
all_columns = claimed_at ∷ max_attempts ∷ enabled ∷ []

each_column :
    (db : Database)
    → All (λ c. db.columns c ≡ true) all_columns
    → (c : Column) → db.columns c ≡ true
each_column db h claimed_at = h.0
each_column db h max_attempts = h.1.0
each_column db h enabled = h.1.1.0

Finished : Database → Database → Type 0
Finished db db' = Progress db all_columns db' × (db'.claim_index ≡ false)

bootstrap-Leads :
    (between : ℕ → List Change) (now died : ℤ) (db : Database)
    → IsUpgradable db
    → Leads (λ s. s ≡ db) (Finished db) (bootstrap_honker_schema between now died)
unfolding bootstrap_honker_schema Finished
bootstrap-Leads between now died db v =
    let P = Progress db in
    let Q = Finished db in
    let two : List Column = max_attempts ∷ enabled ∷ [] in
    then-Leads (λ s. s ≡ db) (P []) Q _ _ (created_at db)
      (then-Leads (P []) (P []) Q _ _ (gap-Leads db [] (between 0)) (
        then-Leads (P []) (P (enabled ∷ [])) Q _ _ (ensure_column-Leads db [] enabled (between 1)) (
          then-Leads (P (enabled ∷ [])) (P (enabled ∷ [])) Q _ _
            (gap-Leads db (enabled ∷ []) (between 2))
            (then-Leads (P (enabled ∷ [])) (P two) Q _ _
              (ensure_column-Leads db (enabled ∷ []) max_attempts (between 3))
              (then-Leads (P two) (P two) Q _ _ (gap-Leads db two (between 4)) (
                then-Leads (P two) (P all_columns) Q _ _
                  (ensure_column-Leads db two claimed_at (between 5))
                  (then-Leads (P all_columns) (P all_columns) Q _ _
                    (gap-Leads db all_columns (between 6))
                    (migrate_claim_v2-Leads db all_columns (between 7) now died v))))))))

create_all_none :
    (ts : List SchemaTable) (db : Database)
    → ((t : SchemaTable) → db.tables t ≡ true)
    → create_all ts db ≡ db
unfolding create_all
create_all_none [] db h = refl
create_all_none (t ∷ ts) db h = simp (h t) (create_all_none ts db h)

create_tables_none :
    (db : Database) → ((t : SchemaTable) → db.tables t ≡ true) → create_tables db ≡ (ok tt, db)
unfolding create_tables
create_tables_none db h = ap (λ (x : Database). (ok tt, x)) (create_all_none all_tables db h)

-- Where the schema is current, a bootstrap on its own does nothing.
rerun :
    (now died : ℤ) (db : Database)
    → IsInstalled db
    → bootstrap_honker_schema (λ i. []) now died db ≡ (ok tt, db)
unfolding bootstrap_honker_schema ensure_column meanwhile migrate_claim_v2
rerun now died db v = simp (
  create_tables_none db v.tables,
  v.columns enabled,
  v.columns max_attempts,
  v.columns claimed_at,
  v.marker,
)

-- In a database where no id stands twice and where, unless it has the index of older builds, every
-- waiting job has an attempt left, a bootstrap succeeds, whatever statements of their own bootstraps
-- other processes run between its statements. After it the tables and their columns are there and the
-- old index is not, every waiting job has an attempt left, and each id stands in the live and the dead
-- table together as often as before. A further bootstrap, with none beside it, changes nothing.
pub bootstrap_honker_schema-IsInstalled :
    (between : ℕ → List Change) (now died now' died' : ℤ) (db : Database)
    → IsUpgradable db
    → let (r, db') = bootstrap_honker_schema between now died db in
      (r ≡ ok tt)
      × IsInstalled db'
      × ((i : ℕ) → tally i db'.jobs ≡ tally i db.jobs)
      × (bootstrap_honker_schema (λ i. []) now' died' db' ≡ (ok tt, db'))
unfolding Finished
bootstrap_honker_schema-IsInstalled between now died now' died' db v =
    let e = (bootstrap-Leads between now died db v).at db refl in
    let db' = (bootstrap_honker_schema between now died db).1 in
    let kept = e.holds.0.same.rows v in
    let installed : IsInstalled db' = record {
      tables = e.holds.0.tables;
      columns = each_column db' e.holds.0.columns;
      marker = e.holds.1;
      distinct = kept.distinct;
      claimable = kept.claimable e.holds.1;
    } in
    (e.ended, installed, e.holds.0.same.jobs, rerun now' died' db' installed)
