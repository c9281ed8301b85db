-- ===== src/Schema/Steps.antt =====
-- What each statement of a bootstrap leads to (honker-core/src/lib.rs, `bootstrap_honker_schema`).
use honker.Base.{
  true, false, ◌≡◌, refl, arith, List, [], ◌∷◌, All, Bool-cases, inl, inr, sym, subst,
}
use honker.Base.Int.{ℤ}
use honker.Action.{ok, Action, Result, ◌>>◌}
use honker.Schema.{
  Database, Change, SchemaTable, ensure_column, Column, create_tables, same_column, meanwhile, gap,
  live_table, claimed_at, create_table, enabled, max_attempts, add_column, swallow_duplicate,
  tasks_table, migrate_claim_v2, migrate_locked, locks_table, rate_limits_table,
  stream_consumers_table, results_table, stream_table, dead_table, all_tables, create_all,
  same_table,
}
use honker.Schema.Migration.{
  IsUpgradable, Upgrades, meanwhile-Upgrades, create_tables-Upgrades, Upgrades-Preorder,
  add_column-Upgrades, migrate_lem, migrate_locked-Upgrades, create_all-Upgrades,
}
use honker.Action.Outcome.{bind_after}

-- `r` is a success, and `P` holds of the database after it.
pub record Ends (P : Database → Type 0) (r : Result (Unit {0}) × Database) : Type 0 where
  pub ended : r.0 ≡ ok tt
  pub holds : P r.1

-- From where `P` holds, `m` succeeds and leads to where `Q` holds.
pub record Leads (P Q : Database → Type 0) (m : Action Database Unit) : Type 0 where
  pub at : (db : Database) → P db → Ends Q (m db)

pub then-Leads :
    (P R Q : Database → Type 0) (m n : Action Database Unit)
    → Leads P R m
    → Leads R Q n
    → Leads P Q (m >> n)
then-Leads P R Q m n f g = record {
  at = λ db p.
      let e = f.at db p in
      subst (Ends Q) (sym (bind_after m (λ _. n) db tt e.ended)) (g.at (m db).1 e.holds);
}

-- How far the bootstrap of `db` is: the columns of `present` are there.
pub record Progress (db : Database) (present : List Column) (db' : Database) : Type 0 where
  pub same : Upgrades db db'
  pub tables : (t : SchemaTable) → db'.tables t ≡ true
  pub columns : All (λ c. db'.columns c ≡ true) present

still_there :
    (db db' : Database)
    → Upgrades db db'
    → (present : List Column) → All (λ c. db.columns c ≡ true) present
    → All (λ c. db'.columns c ≡ true) present
still_there db db' u [] h = tt
still_there db db' u (c ∷ cs) h = (u.columns c h.0, still_there db db' u cs h.1)

further :
    {db : Database} {present : List Column} (db' db'' : Database)
    → Progress db present db'
    → Upgrades db' db''
    → Progress db present db''
further {db} {present} db' db'' p u = record {
  same = Upgrades-Preorder.trans db db' db'' p.same u;
  tables = λ t. u.tables t (p.tables t);
  columns = still_there db' db'' u present p.columns;
}

same_table_refl : (t : SchemaTable) → same_table t t ≡ true
same_table_refl live_table = refl
same_table_refl dead_table = refl
same_table_refl locks_table = refl
same_table_refl rate_limits_table = refl
same_table_refl tasks_table = refl
same_table_refl results_table = refl
same_table_refl stream_table = refl
same_table_refl stream_consumers_table = refl

-- A table that is created is there, and stays.
created_there : (t : SchemaTable) (db : Database) → (create_table t db).tables t ≡ true
created_there t db = ground (arith, same_table_refl t)

all_created :
    (ts : List SchemaTable) (db : Database) → All (λ t. (create_all ts db).tables t ≡ true) ts
unfolding create_all
all_created [] db = tt
all_created (t ∷ ts) db = (
  (create_all-Upgrades ts (create_table t db)).tables t (created_there t db),
  all_created ts (create_table t db),
)

each_table :
    (db : Database)
    → All (λ t. db.tables t ≡ true) all_tables
    → (t : SchemaTable) → db.tables t ≡ true
each_table db h live_table = h.0
each_table db h dead_table = h.1.0
each_table db h locks_table = h.1.1.0
each_table db h rate_limits_table = h.1.1.1.0
each_table db h tasks_table = h.1.1.1.1.0
each_table db h results_table = h.1.1.1.1.1.0
each_table db h stream_table = h.1.1.1.1.1.1.0
each_table db h stream_consumers_table = h.1.1.1.1.1.1.1.0

created : (db : Database) → Ends (Progress db []) (create_tables db)
unfolding create_tables
created db = record {
  ended = refl;
  holds = record {
    same = create_tables-Upgrades.at db;
    tables = each_table (create_all all_tables db) (all_created all_tables db);
    columns = tt;
  };
}

same_column_refl : (c : Column) → same_column c c ≡ true
same_column_refl enabled = refl
same_column_refl max_attempts = refl
same_column_refl claimed_at = refl

-- An ALTER TABLE adds the column, or another process has added it in the meantime.
added :
    (c : Column) (db : Database)
    → (swallow_duplicate (add_column c db) ≡ (ok tt, (add_column c db).1))
      × ((add_column c db).1.columns c ≡ true)
unfolding add_column
added c db = elim (Bool-cases (db.columns c)) [
  | inl h ↦ rw h (refl, h)
  | inr h ↦ rw (h, same_column_refl c) (refl, refl)
]

module _ (db : Database) (present : List Column) where
  pub gap-Leads :
      (others : List Change) → Leads (Progress db present) (Progress db present) (gap others)
  gap-Leads others = record {
    at = λ db' p. record {
      ended = refl;
      holds = further db' (meanwhile others db') p (meanwhile-Upgrades others db');
    };
  }

  with_column :
      (c : Column) (db' : Database)
      → Progress db present db'
      → db'.columns c ≡ true
      → Ends (Progress db (c ∷ present)) (ok tt, db')
  with_column c db' p h = record {
    ended = refl;
    holds = record { same = p.same; tables = p.tables; columns = (h, p.columns) };
  }

  pub ensure_column-Leads :
      (c : Column) (others : List Change)
      → Leads (Progress db present) (Progress db (c ∷ present)) (ensure_column c others)
  unfolding ensure_column
  ensure_column-Leads c others = record {
    at = λ db' p.
        let later = meanwhile others db' in
        let u = meanwhile-Upgrades others db' in
        let q = further db' later p u in
        elim (Bool-cases (db'.columns c)) [
          | inl h ↦ rw h (with_column c later q (u.columns c h))
          | inr h ↦
              rw (h, (added c later).0)
                (with_column c (add_column c later).1
                  (further later (add_column c later).1 q ((add_column-Upgrades c).at later))
                  (added c later).1)
        ];
  }

  -- The migration, which ends the bootstrap.
  pub migrate_claim_v2-Leads :
      (others : List Change) (now died : ℤ)
      → IsUpgradable db
      → Leads
          (Progress db present)
          (λ t. Progress db present t × (t.claim_index ≡ false))
          (migrate_claim_v2 others now died)
  unfolding migrate_claim_v2
  migrate_claim_v2-Leads others now died v = record {
    at = λ db' p.
        let later = meanwhile others db' in
        let u = meanwhile-Upgrades others db' in
        let q = further db' later p u in
        let done_well = migrate_lem now died later (q.same.rows v).distinct in
        elim (Bool-cases db'.claim_index) [
          | inl h ↦ simp h (record {
            ended = done_well.0;
            holds = (
              further later (migrate_locked now died later).1 q
                  ((migrate_locked-Upgrades now died).at later),
              done_well.1,
            );
          })
          | inr h ↦ simp h (record { ended = refl; holds = (q, u.indexes h) })
        ];
  }

pub created_at : (db : Database) → Leads (λ s. s ≡ db) (Progress db []) create_tables
created_at db = record {
  at = λ s e. subst (λ x. Ends (Progress db []) (create_tables x)) (sym e) (created db);
}
