-- ===== src/Schema/Migration.antt =====
-- What a bootstrap keeps and never takes back (honker-core/src/lib.rs, `migrate_claim_v2`).
use honker.Base.{
  Bool, true, false, ◌≡◌, refl, ℕ, ◌≤◌, arith, List, [], ◌∷◌, All, Bool-cases, inl, inr, ◌∙◌, ◌||◌,
}
use honker.Base.Int.{ℤ, pos, ◌<ℤ◌}
use honker.Action.{ok, in_savepoint, err, constraint}
use honker.Queue.Rows.{
  Jobs, Row, is_processing, tally, has_id, is_scheduled, pending, scheduled, processing, is_pending,
  State,
}
use honker.Schema.{
  Database, is_future, hold_back, is_spent, same_table, Column, drop_indexes, migrate, create_table,
  SchemaTable, migrate_locked, same_column, delayed, add_column, bury_spent, table_of, migrates,
  create_tables, Change, creates, adds, change, meanwhile, all_tables, create_all,
}
use honker.Table.{count_if-update, reject, select}
use honker.Queue.Moves.{moved, tally-moved}
use honker.Action.Keeps.{Preorder, Keeps}
use honker.Queue.Batch.Progress.{no_conflict}
use honker.Queue.Claim.{conflicts}

-- A row that nobody works on has an attempt left.
abbrev pub IsClaimable : Row → Type 0
IsClaimable r = is_processing r.state ≡ false → pos r.attempts <ℤ r.max_attempts

-- No id stands twice, and without the old index every waiting row can be claimed.
pub record IsUpgradable (db : Database) : Type 0 where
  pub distinct : (i : ℕ) → tally i db.jobs ≤ 1
  pub claimable : db.claim_index ≡ false → All IsClaimable db.jobs.live

-- What every statement of a bootstrap does between the database before and the one after.
pub record Upgrades (db db' : Database) : Type 0 where
  pub tables : (t : SchemaTable) → db.tables t ≡ true → db'.tables t ≡ true
  pub columns : (c : Column) → db.columns c ≡ true → db'.columns c ≡ true
  pub indexes : db.claim_index ≡ false → db'.claim_index ≡ false
  pub jobs : (i : ℕ) → tally i db'.jobs ≡ tally i db.jobs
  pub rows : IsUpgradable db → IsUpgradable db'

pub Upgrades-Preorder : Preorder Upgrades
Upgrades-Preorder = record {
  same = λ s. record {
    tables = λ t h. h;
    columns = λ c h. h;
    indexes = λ h. h;
    jobs = λ i. refl;
    rows = λ v. v;
  };
  trans = λ s t u f g. record {
    tables = λ k h. g.tables k (f.tables k h);
    columns = λ c h. g.columns c (f.columns c h);
    indexes = λ h. g.indexes (f.indexes h);
    jobs = λ i. g.jobs i ∙ f.jobs i;
    rows = λ v. g.rows (f.rows v);
  };
}

-- A statement that changes neither the jobs nor the old index.
schema-Upgrades :
    (db : Database) (tables : SchemaTable → Bool) (columns : Column → Bool)
    → ((t : SchemaTable) → db.tables t ≡ true → tables t ≡ true)
    → ((c : Column) → db.columns c ≡ true → columns c ≡ true)
    → Upgrades db (record db { tables = tables; columns = columns })
schema-Upgrades db tables columns t c = record {
  tables = t;
  columns = c;
  indexes = λ h. h;
  jobs = λ i. refl;
  rows = λ v. record { distinct = v.distinct; claimable = v.claimable };
}

create_table-Upgrades : (t : SchemaTable) (db : Database) → Upgrades db (create_table t db)
create_table-Upgrades t db = elim (Bool-cases (db.tables t)) [
  | inl c ↦ rw c (Upgrades-Preorder.same db)
  | inr c ↦ rw c (
      schema-Upgrades db (λ u. same_table t u || db.tables u)
        (λ d. same_table t (table_of d) || db.columns d) (λ u h. ground (arith, h))
        (λ d h. ground (arith, h)))
]

pub add_column-Upgrades : (c : Column) → Keeps Upgrades (add_column c)
unfolding add_column
add_column-Upgrades c = record {
  at = λ db. elim (Bool-cases (db.columns c)) [
    | inl h ↦ rw h (Upgrades-Preorder.same db)
    | inr h ↦ rw h (
        schema-Upgrades db db.tables (λ d. same_column c d || db.columns d) (λ u k. k)
          (λ d k. ground (arith, k)))
  ];
}

tally-hold_back : (now : ℤ) (jobs : Jobs) (i : ℕ) → tally i (hold_back now jobs) ≡ tally i jobs
unfolding tally
tally-hold_back now jobs i =
    omega (arith, count_if-update (has_id i) (is_future now) delayed (λ r. refl) jobs.live)

waiting_state : (s : State) → is_processing s ≡ false → (is_pending s || is_scheduled s) ≡ true
waiting_state scheduled h = refl
waiting_state pending h = refl
waiting_state processing h = absurd (ground (arith, h))

-- What the DELETE leaves can be claimed.
reject_spent-IsClaimable : (rows : List Row) → All IsClaimable (reject is_spent rows)
reject_spent-IsClaimable [] = tt
reject_spent-IsClaimable (r ∷ rs) =
    ground (arith, waiting_state r.state, reject_spent-IsClaimable rs)

-- The jobs after the batch.
abbrev pub migrated : ℤ → ℤ → Jobs → Jobs
migrated now died jobs = moved is_spent died "max attempts exceeded" (hold_back now jobs)

tally-migrated :
    (now died : ℤ) (jobs : Jobs) (i : ℕ) → tally i (migrated now died jobs) ≡ tally i jobs
tally-migrated now died jobs i =
    tally-moved is_spent died "max attempts exceeded" (hold_back now jobs) i
    ∙ tally-hold_back now jobs i

migrated-Upgrades :
    (now died : ℤ) (db : Database)
    → Upgrades db (drop_indexes (record db { jobs = migrated now died db.jobs }))
migrated-Upgrades now died db = record {
  tables = λ t h. h;
  columns = λ c h. h;
  indexes = λ h. refl;
  jobs = λ i. tally-migrated now died db.jobs i;
  rows = λ v. record {
    distinct = λ i. omega (arith, v.distinct i, tally-migrated now died db.jobs i);
    claimable = λ h. reject_spent-IsClaimable (hold_back now db.jobs).live;
  };
}

-- The migration undoes what it wrote where it fails.
migrate_refused :
    (now died : ℤ) (db : Database)
    → db.claim_index ≡ true
    → conflicts db.jobs.dead (select is_spent (hold_back now db.jobs).live) ≡ true
    → migrate_locked now died db ≡ (err constraint, db)
unfolding migrate_locked in_savepoint migrate bury_spent
migrate_refused now died db c k = rw (c, k) refl

migrate_done :
    (now died : ℤ) (db : Database)
    → db.claim_index ≡ true
    → conflicts db.jobs.dead (select is_spent (hold_back now db.jobs).live) ≡ false
    → migrate_locked now died db
      ≡ (ok tt, drop_indexes (record db { jobs = migrated now died db.jobs }))
unfolding migrate_locked in_savepoint migrate bury_spent
migrate_done now died db c k = rw (c, k) refl

migrate_skipped :
    (now died : ℤ) (db : Database)
    → db.claim_index ≡ false
    → migrate_locked now died db ≡ (ok tt, db)
unfolding migrate_locked in_savepoint migrate
migrate_skipped now died db c = rw c refl

pub migrate_locked-Upgrades : (now died : ℤ) → Keeps Upgrades (migrate_locked now died)
migrate_locked-Upgrades now died = record {
  at = λ db. elim (Bool-cases db.claim_index) [
    | inl c ↦
        elim (Bool-cases (conflicts db.jobs.dead (select is_spent (hold_back now db.jobs).live))) [
          | inl k ↦ rw (migrate_refused now died db c k) (Upgrades-Preorder.same db)
          | inr k ↦ rw (migrate_done now died db c k) (migrated-Upgrades now died db)
        ]
    | inr c ↦ rw (migrate_skipped now died db c) (Upgrades-Preorder.same db)
  ];
}

pub create_all-Upgrades : (ts : List SchemaTable) (db : Database) → Upgrades db (create_all ts db)
unfolding create_all
create_all-Upgrades [] db = Upgrades-Preorder.same db
create_all-Upgrades (t ∷ ts) db =
    Upgrades-Preorder.trans db (create_table t db) (create_all ts (create_table t db))
      (create_table-Upgrades t db) (create_all-Upgrades ts (create_table t db))

pub create_tables-Upgrades : Keeps Upgrades create_tables
unfolding create_tables
create_tables-Upgrades = record { at = create_all-Upgrades all_tables }

change-Upgrades : (c : Change) (db : Database) → Upgrades db (change c db)
change-Upgrades creates db = create_tables-Upgrades.at db
change-Upgrades (adds c) db = (add_column-Upgrades c).at db
change-Upgrades (migrates now died) db = (migrate_locked-Upgrades now died).at db

-- Whatever other processes do, nothing is taken back and no job is lost.
pub meanwhile-Upgrades : (cs : List Change) (db : Database) → Upgrades db (meanwhile cs db)
unfolding meanwhile
meanwhile-Upgrades [] db = Upgrades-Preorder.same db
meanwhile-Upgrades (c ∷ cs) db =
    Upgrades-Preorder.trans db (change c db) (meanwhile cs (change c db)) (change-Upgrades c db)
      (meanwhile-Upgrades cs (change c db))

-- Where no id stands twice, the migration does not fail, and the old index is gone after it.
pub migrate_lem :
    (now died : ℤ) (db : Database)
    → ((i : ℕ) → tally i db.jobs ≤ 1)
    → ((migrate_locked now died db).0 ≡ ok tt)
      × ((migrate_locked now died db).1.claim_index ≡ false)
unfolding tally
migrate_lem now died db h =
    let none_doubled =
      no_conflict db.jobs.dead is_spent (hold_back now db.jobs).live
        (λ i. omega (arith, h i, tally-hold_back now db.jobs i)) in
    elim (Bool-cases db.claim_index) [
      | inl c ↦ rw (migrate_done now died db c none_doubled) (refl, refl)
      | inr c ↦ rw (migrate_skipped now died db c) (refl, c)
    ]
