-- ===== src/Results/Lookup.antt =====
-- What `result_get` finds after the other calls (honker-core/src/honker_ops.rs).
use honker.Results.{
  StoredResult, read_result, result_expiry, of_job, replaced, result_get, result_save, result_sweep,
}
use honker.Base.Int.{ℤ, ltb_ℤ, ◌≤ℤ◌, ◌+ℤ◌, leb_ℤ, pos, eq_of_parts}
use honker.Action.{ok}
use honker.Table.{reject, count_if}
use honker.Queue.Manage.{opt_in_i64}
use honker.Queue.Rows.{reached}
use honker.Table.Upsert.{find, find-none, upserted, find-upsert_other, find-upsert}
use honker.Base.{
  ◌≤◌, String, ◌≡◌, refl, ap, ◌≢◌, inl, inr, true, ◌&&◌, Option, none, some, List, [], ◌∷◌, arith,
  if◌then◌else◌, Bool-cases, All,
}

-- A result that was saved is read back until its time to live is over, and for ever if that is not
-- positive; it takes the place of an earlier one. What is read for other jobs stays as it was. The
-- time to live, if positive, must end at an `i64`.
pub result_get-save :
    (job : ℤ) (value : String) (ttl_s now created u : ℤ) (results : List StoredResult)
    → (other : ℤ) → opt_in_i64 (result_expiry ttl_s now) ≡ true
    → job ≢ other
    → (result_get job u (result_save job value ttl_s now created results).1
        ≡ ok (if ltb_ℤ (pos 0) ttl_s && leb_ℤ (now +ℤ ttl_s) u then none else some value))
      × (result_get other u (result_save job value ttl_s now created results).1
          ≡ result_get other u results)
unfolding result_get result_save
result_get-save job value ttl_s now created u results other fits d =
    let expires_at = result_expiry ttl_s now in
    let new : StoredResult = record {
      job_id = job;
      value = some value;
      created_at = created;
      expires_at = expires_at;
    } in
    (
      rw
          (find-upsert (of_job job) new (λ r. true) (replaced value expires_at) (ground arith)
            (λ r h. h) results)
          (read_saved (find (of_job job) results)),
      ap (read_result u) (
          find-upsert_other (of_job job) new (λ r. true) (replaced value expires_at) (of_job other)
            (ground (arith, d, eq_of_parts job other))
            (λ r k. ground (
              arith,
              k,
              d,
              eq_of_parts job other,
              eq_of_parts r.job_id job,
              eq_of_parts r.job_id other,
            ))
            results),
    )
  where
    new_row : StoredResult
    new_row = record {
      job_id = job;
      value = some value;
      created_at = created;
      expires_at = result_expiry ttl_s now;
    }

    read_saved :
        (o : Option StoredResult)
        → read_result u (
            some (
              upserted
                (of_job job)
                new_row
                (λ r. true)
                (replaced value (result_expiry ttl_s now))
                o))
          ≡ ok (if ltb_ℤ (pos 0) ttl_s && leb_ℤ (now +ℤ ttl_s) u then none else some value)
    read_saved none = ground (arith, fits)
    read_saved (some r) = ground (arith, fits)

swept_find :
    (job : ℤ) (s u : ℤ) (results : List StoredResult)
    → s ≤ℤ u
    → count_if (of_job job) results ≤ 1
    → All (λ r. opt_in_i64 r.expires_at ≡ true) results
    → read_result u (find (of_job job) (reject (λ r. reached r.expires_at s) results))
      ≡ read_result u (find (of_job job) results)
swept_find job s u [] h c d = refl
swept_find job s u (r ∷ rs) h c d = elim (Bool-cases (of_job job r)) [
  | inl e ↦ ground (
    arith,
    d.0,
    e,
    swept_find job s u rs h (omega arith) d.1,
    find-none (of_job job) rs (ground arith),
  )
  | inr e ↦ ground (arith, e, swept_find job s u rs h (ground (arith, c)) d.1)
]

-- A sweep changes nothing that is read from its time on.
pub result_get-sweep :
    (job s u : ℤ) (results : List StoredResult)
    → s ≤ℤ u
    → count_if (of_job job) results ≤ 1
    → All (λ r. opt_in_i64 r.expires_at ≡ true) results
    → result_get job u (result_sweep s results).1 ≡ result_get job u results
unfolding result_get result_sweep
result_get-sweep = swept_find
