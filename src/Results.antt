-- ===== src/Results.antt =====
-- Task results: `result_save`, `result_get` and `result_sweep` (honker-core/src/honker_ops.rs), over
-- the table `_honker_results` (honker-core/src/lib.rs).
pub mod Lookup
use honker.Base.Int.{ℤ, ltb_ℤ, ◌+ℤ◌, pos, eq_ℤ}
use honker.Action.{ok, Action, invalid_column, Result, err}
use honker.Table.{reject, count_if}
use honker.Queue.Manage.{opt_in_i64}
use honker.Queue.Rows.{reached}
use honker.Table.Upsert.{find, upsert}
use honker.Base.{ℕ, String, Bool, true, Option, none, some, List, if◌then◌else◌, ◌==◌}

pub record StoredResult : Type 0 where
  pub job_id : ℤ
  pub value : Option String
  pub created_at : ℤ
  pub expires_at : Option ℤ

abbrev pub of_job : ℤ → StoredResult → Bool
of_job job r = eq_ℤ r.job_id job

-- expires_at of a result that is saved at `now`; NULL without a positive `ttl_s`.
abbrev pub result_expiry : ℤ → ℤ → Option ℤ
result_expiry ttl_s now = if ltb_ℤ (pos 0) ttl_s then some (now +ℤ ttl_s) else none

abbrev pub replaced : String → Option ℤ → StoredResult → StoredResult
replaced value expires_at r = record r { value = some value; expires_at = expires_at }

-- `created` is the reading of the column's default `unixepoch()`.
unfoldable pub result_save : ℤ → String → ℤ → ℤ → ℤ → Action (List StoredResult) ℕ
result_save job value ttl_s now created results =
    let expires_at = result_expiry ttl_s now in
    (
      ok 1,
      upsert (of_job job)
          (record {
            job_id = job;
            value = some value;
            created_at = created;
            expires_at = expires_at;
          })
          (λ r. true) (replaced value expires_at) results,
    )

abbrev pub read_result : ℤ → Option StoredResult → Result (Option String)
read_result now none = ok none
read_result now (some r) =
    if opt_in_i64 r.expires_at
    then ok (if reached r.expires_at now then none else r.value)
    else err invalid_column

unfoldable pub result_get : ℤ → ℤ → List StoredResult → Result (Option String)
result_get job now results = read_result now (find (of_job job) results)

unfoldable pub result_sweep : ℤ → Action (List StoredResult) ℕ
result_sweep now results = (
  ok (count_if (λ r. reached r.expires_at now) results),
  reject (λ r. reached r.expires_at now) results,
)
