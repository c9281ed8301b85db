-- ===== src/Examples/Schema.antt =====
-- A database of an older build that two processes bring up to date at once.
use honker.Base.{ℕ, ◌≡◌, refl, true, false, List, [], ◌∷◌, none, arith, map, ◌||◌}
use honker.Base.Int.{ℤ, pos}
use honker.Action.{ok, Result, in_savepoint}
use honker.Queue.Rows.{Row, Jobs, pending, tally, DeadJob, scheduled}
use honker.Schema.{
  Database, Change, adds, bootstrap_honker_schema, add_column, enabled, max_attempts, claimed_at,
  bury_spent, migrate_locked, migrate, meanwhile, create_tables, ensure_column, migrate_claim_v2,
  same_table, live_table, dead_table, tasks_table, create_all,
}
use honker.Schema.Migration.{IsUpgradable}
use honker.Schema.Installed.{bootstrap_honker_schema-IsInstalled, IsInstalled}

abbrev old_row : ℕ → ℤ → ℕ → Row
old_row i run_at attempts = record {
  id = i;
  queue = "mail";
  payload = "x";
  state = pending;
  priority = pos 0;
  run_at = run_at;
  worker_id = none;
  claim_expires_at = none;
  attempts = attempts;
  max_attempts = pos 3;
  created_at = pos 90;
  expires_at = none;
  claimed_at = none;
}

-- The first job has no attempt left, and the second is for later.
abbrev old_jobs : Jobs
old_jobs = record {
  live = old_row 1 (pos 90) 3 ∷ old_row 2 (pos 500) 0 ∷ [];
  dead = [];
  next_id = 3;
}

abbrev old_database : Database
old_database = record {
  tables = λ t. same_table t live_table || same_table t tasks_table || same_table t dead_table;
  columns = λ c. false;
  claim_index = true;
  deadline_index = true;
  jobs = old_jobs;
}

-- Another process adds each column in the gap between the test for it and the ALTER TABLE.
abbrev racing : ℕ → List Change
racing i = adds enabled ∷ adds max_attempts ∷ adds claimed_at ∷ []

old_database-IsUpgradable : IsUpgradable old_database
unfolding tally
old_database-IsUpgradable = record {
  distinct = λ i. ground arith;
  claimable = λ h. absurd (ground (arith, h));
}

abbrev upgraded : Result (Unit {0}) × Database
upgraded = bootstrap_honker_schema racing (pos 100) (pos 101) old_database

buries_and_holds_back :
    (map (λ (r : Row). r.id) upgraded.1.jobs.live ≡ 2 ∷ [])
    × (map (λ (d : DeadJob). d.id) upgraded.1.jobs.dead ≡ 1 ∷ [])
    × (map (λ (r : Row). r.state) upgraded.1.jobs.live ≡ scheduled ∷ [])
unfolding bootstrap_honker_schema create_tables create_all ensure_column add_column meanwhile
    migrate_claim_v2 migrate_locked migrate bury_spent in_savepoint
buries_and_holds_back = (refl, refl, refl)

bootstrap_honker_schema-IsInstalled_example :
    (upgraded.0 ≡ ok tt)
    × IsInstalled upgraded.1
    × ((i : ℕ) → tally i upgraded.1.jobs ≡ tally i old_jobs)
    × (bootstrap_honker_schema (λ i. []) (pos 200) (pos 200) upgraded.1 ≡ (ok tt, upgraded.1))
bootstrap_honker_schema-IsInstalled_example =
    bootstrap_honker_schema-IsInstalled racing (pos 100) (pos 101) (pos 200) (pos 200) old_database
      old_database-IsUpgradable
