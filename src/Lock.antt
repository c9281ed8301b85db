-- ===== src/Lock.antt =====
-- Named locks: `lock_acquire`, `lock_release` and `lock_renew` (honker-core/src/honker_ops.rs), over
-- the table `_honker_locks` (honker-core/src/lib.rs).
-- Each statement that says `unixepoch()` has its own reading of the clock.
pub mod Exclusion
pub mod Handover
use honker.Base.Int.{ℤ, leb_ℤ, pos, ◌+ℤ◌}
use honker.Action.{Action, err, ok, not_positive}
use honker.Table.{reject, update, count_if}
use honker.Table.Upsert.{find}
use honker.Base.{
  ℕ, String, Bool, false, ◌&&◌, Option, none, some, List, [], ◌∷◌, ◌++◌, str_eq, ltb, if◌then◌else◌,
}

pub record Lock : Type 0 where
  pub name : String
  pub owner : String
  pub expires_at : ℤ

abbrev pub named : String → Lock → Bool
named name l = str_eq l.name name

abbrev pub owned : String → String → Lock → Bool
owned name owner l = str_eq l.name name && str_eq l.owner owner

abbrev pub is_stale : String → ℤ → Lock → Bool
is_stale name now l = str_eq l.name name && leb_ℤ l.expires_at now

-- INSERT OR IGNORE: the primary key `name` refuses a second row.
abbrev pub insert_or_ignore : Lock → List Lock → List Lock
insert_or_ignore l locks = if ltb 0 (count_if (named l.name) locks) then locks else locks ++ l ∷ []

abbrev pub is_owner : String → Option Lock → Bool
is_owner owner none = false
is_owner owner (some l) = str_eq l.owner owner

-- `t` is read by the DELETE, `u` by the INSERT.
unfoldable pub lock_acquire : String → String → ℤ → ℤ → ℤ → Action (List Lock) ℕ
lock_acquire name owner ttl_s t u locks =
    let cleared = reject (is_stale name t) locks in
    let after =
      insert_or_ignore (record { name = name; owner = owner; expires_at = u +ℤ ttl_s }) cleared in
    (ok (if is_owner owner (find (named name) after) then 1 else 0), after)

unfoldable pub lock_release : String → String → Action (List Lock) ℕ
lock_release name owner locks =
    (ok (count_if (owned name owner) locks), reject (owned name owner) locks)

abbrev pub renewed : ℤ → Lock → Lock
renewed expires_at l = record l { expires_at = expires_at }

unfoldable pub lock_renew : String → String → ℤ → ℤ → Action (List Lock) ℕ
lock_renew name owner ttl_s now locks = if leb_ℤ ttl_s (pos 0) then (err not_positive, locks) else (
  ok (if ltb 0 (count_if (owned name owner) locks) then 1 else 0),
  update (owned name owner) (renewed (now +ℤ ttl_s)) locks,
)
