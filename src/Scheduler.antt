-- ===== src/Scheduler.antt =====
-- The scheduler's table of periodic tasks: `scheduler_register`, `scheduler_unregister`,
-- `scheduler_pause`, `scheduler_resume`, `scheduler_update`, `scheduler_soonest` and `scheduler_list`
-- (honker-core/src/honker_ops.rs), over `_honker_scheduler_tasks` (honker-core/src/lib.rs).
-- `scheduler_wake` does nothing and is left out.
pub mod Tick
pub mod Fires
pub mod Done
pub mod Wake
pub mod Zones
use Prim.Native.String.{compare as compare_text}
use Prim.Native.Nat.{Ordering}
use honker.Base.Int.{ℤ, in_i64, pos, ◌<ℤ◌}
use honker.Action.{Result, err, Action, ok, ◌>>◌, ◌>>=◌, invalid_column, lift, pure}
use honker.Table.{count_if, update, order_by, reject, select}
use honker.Queue.Deadline.{least}
use honker.Queue.Submit.{check_max_attempts}
use honker.Table.Upsert.{upsert}
use honker.Base.{
  ℕ, String, ◌≡◌, Bool, true, false, not, ◌&&◌, Option, none, some, List, map, str_eq,
  if◌then◌else◌, ◌||◌, ◌==◌, is_some,
}

pub record Task : Type 0 where
  pub name : String
  pub queue : String
  pub cron_expr : String
  pub payload : String
  pub priority : ℤ
  pub expires_s : Option ℤ
  pub next_fire_at : ℤ
  pub enabled : Bool
  pub max_attempts : ℤ

abbrev pub is_task : String → Task → Bool
is_task name t = str_eq t.name name

abbrev pub set_next : ℤ → Task → Task
set_next next t = record t { next_fire_at = next }

-- DO UPDATE SET of `scheduler_register`: all but `enabled`.
abbrev pub reregistered : Task → Task → Task
reregistered new t = record new { enabled = t.enabled }

abbrev pub new_task : String → String → String → String → ℤ → Option ℤ → ℤ → ℤ → Task
new_task name queue cron_expr payload priority expires_s max_attempts next = record {
  name = name;
  queue = queue;
  cron_expr = cron_expr;
  payload = payload;
  priority = priority;
  expires_s = expires_s;
  next_fire_at = next;
  enabled = true;
  max_attempts = max_attempts;
}

unfoldable pub scheduler_unregister : String → Action (List Task) ℕ
scheduler_unregister name tasks = (ok (count_if (is_task name) tasks), reject (is_task name) tasks)

abbrev pub set_enabled : Bool → Task → Task
set_enabled b t = record t { enabled = b }

unfoldable pub scheduler_pause : String → Action (List Task) ℕ
scheduler_pause name tasks =
    let on : Task → Bool = λ t. is_task name t && t.enabled in
    (ok (count_if on tasks), update on (set_enabled false) tasks)

unfoldable pub scheduler_resume : String → Action (List Task) ℕ
scheduler_resume name tasks =
    let off : Task → Bool = λ t. is_task name t && not t.enabled in
    (ok (count_if off tasks), update off (set_enabled true) tasks)

abbrev pub is_enabled : Task → Bool
is_enabled t = t.enabled

abbrev pub or_none : Option ℤ → ℤ
or_none none = pos 0
or_none (some t) = t

-- COALESCE(MIN(next_fire_at), 0)
unfoldable pub scheduler_soonest : List Task → Result ℤ
scheduler_soonest tasks =
    let soonest = or_none (least (map (λ t. t.next_fire_at) (select is_enabled tasks))) in
    if in_i64 soonest then ok soonest else err invalid_column

abbrev pub by_name : Task → Task → Bool
by_name s t = elim (compare_text s.name t.name) [ Ordering.gt ↦ false | _ ↦ true ]

-- The returned JSON array has the columns of the rows.
unfoldable pub scheduler_list : List Task → List Task
scheduler_list tasks = order_by by_name tasks

-- `next_after expr t` is `next_after_unix` (honker-core/src/cron.rs): the next boundary of a schedule
-- after a time.
module _ (next_after : String → ℤ → Result ℤ) where
  unfoldable pub scheduler_register :
      String → String → String → String → ℤ → Option ℤ → ℤ → ℤ → Action (List Task) ℕ
  unfolding check_max_attempts
  scheduler_register name queue cron_expr payload priority expires_s max_attempts now = do
    check_max_attempts max_attempts
    next ← lift (next_after cron_expr now)
    (let new = new_task name queue cron_expr payload priority expires_s max_attempts next in
        λ tasks. (ok 1, upsert (is_task name) new (λ t. true) (reregistered new) tasks))

  abbrev pub given {ℓ} : {A : Type ℓ} → Option A → A → A
  given none x = x
  given (some y) x = y

  abbrev pub check_new_max : Option (Option ℤ) → Action (List Task) Unit
  check_new_max (some (some m)) = check_max_attempts m
  check_new_max _ = pure tt

  abbrev pub next_of : Option String → ℤ → Result (Option ℤ)
  next_of none now = ok none
  next_of (some expr) now = elim (next_after expr now) [ ok t ↦ ok (some t) | err e ↦ err e ]

  -- The UPDATEs of `scheduler_update`, one for each field that is given, on a row of the task.
  abbrev pub edited :
      Option String
      → Option String
      → Option ℤ
      → Option (Option ℤ)
      → Option (Option ℤ)
      → Option ℤ
      → Task
      → Task
  edited cron_expr payload priority expires_s max_attempts next t = record t {
    payload = given payload t.payload;
    priority = given priority t.priority;
    expires_s = given expires_s t.expires_s;
    max_attempts = elim max_attempts [ none ↦ t.max_attempts | some m ↦ given m (pos 3) ];
    cron_expr = given cron_expr t.cron_expr;
    next_fire_at = given next t.next_fire_at;
  }

  unfoldable pub scheduler_update :
      String
      → Option String
      → Option String
      → Option ℤ
      → Option (Option ℤ)
      → Option (Option ℤ)
      → ℤ
      → Action (List Task) ℕ
  unfolding check_max_attempts
  scheduler_update name cron_expr payload priority expires_s max_attempts now = do
    check_new_max max_attempts
    (λ tasks.
        (if count_if (is_task name) tasks == 0
              || not (
                  is_some cron_expr
                  || is_some payload
                  || is_some priority
                  || is_some expires_s
                  || is_some max_attempts)
            then pure 0
            else (do
              next ← lift (next_of cron_expr now)
              (λ rows. (
                ok 1,
                update (is_task name)
                    (edited cron_expr payload priority expires_s max_attempts next) rows,
              ))))
          tasks)
