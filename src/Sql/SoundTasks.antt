-- ===== src/Sql/SoundTasks.antt =====
-- The invariants of the tables under the scheduler's operations (honker-core/src/honker_ops.rs).
use honker.Base.{
  Bool, String, ◌≡◌, refl, inl, inr, true, false, Option, List, arith, eq_iff, Bool-cases, none,
  some, if◌then◌else◌, ℕ,
}
use honker.Action.{Action, ◌>>=◌, err, Result, ok, lift, pure}
use honker.Table.{count_if-update, All-reject, All-update, update}
use honker.Scheduler.{
  is_task, set_enabled, reregistered, Task, scheduler_pause, scheduler_resume, new_task,
  scheduler_register, scheduler_unregister, next_of, scheduler_update, edited,
}
use honker.Queue.Submit.{check_max_attempts}
use honker.Base.Int.{ltb_ℤ, ℤ, pos, ◌≤ℤ◌}
use honker.Sql.Sound.{
  Holds, HasBudget, TasksSound, upsert-OncePerKey, reject-OncePerKey, Holds-Preorder,
}
use honker.Action.Keeps.{Keeps, Keeps-pure, Keeps-if}
use honker.Table.Keys.{All-upsert}
use honker.Client.Subscription.{next}

-- An action that goes on only with a budget of one attempt at least.
checked-Keeps :
    {S : Type 0} (P : S → Type 0) {A : Type 0} (max_attempts : ℤ) (m : Action S A)
    → (pos 1 ≤ℤ max_attempts → Keeps (Holds P) m)
    → Keeps (Holds P) (check_max_attempts max_attempts >>= λ _. m)
unfolding check_max_attempts
checked-Keeps P max_attempts m k = elim (Bool-cases (ltb_ℤ max_attempts (pos 1))) [
  | inl e ↦ rw e (record { at = λ s h. h })
  | inr e ↦ rw e (record { at = (k (ground (arith, e))).at })
]

pub lifted-Keeps :
    {S : Type 0} (P : S → Type 0) {A B : Type 0} (r : Result A) (f : A → Action S B)
    → ((a : A) → Keeps (Holds P) (f a))
    → Keeps (Holds P) (lift r >>= f)
lifted-Keeps P (ok a) f k = record { at = (k a).at }
lifted-Keeps P (err e) f k = record { at = λ s h. h }

pub update-TasksSound :
    (p : Task → Bool) (f : Task → Task) (tasks : List Task)
    → ((n : String) (t : Task) → is_task n (f t) ≡ is_task n t)
    → ((t : Task) → p t ≡ true → HasBudget t → HasBudget (f t))
    → TasksSound tasks
    → TasksSound (update p f tasks)
update-TasksSound p f tasks alike keep h = record {
  names = λ n. omega (arith, h.names n, count_if-update (is_task n) p f (alike n) tasks);
  budgets = All-update HasBudget p f keep tasks h.budgets;
}

pub scheduler_unregister-Keeps :
    (name : String) → Keeps (Holds TasksSound) (scheduler_unregister name)
unfolding scheduler_unregister
scheduler_unregister-Keeps name = record {
  at = λ s h. record {
    names = reject-OncePerKey is_task (is_task name) s h.names;
    budgets = All-reject HasBudget (is_task name) s h.budgets;
  };
}

pub scheduler_pause-Keeps : (name : String) → Keeps (Holds TasksSound) (scheduler_pause name)
unfolding scheduler_pause
scheduler_pause-Keeps name = record {
  at = λ s h. update-TasksSound _ (set_enabled false) s (λ n t. refl) (λ t e b. b) h;
}

pub scheduler_resume-Keeps : (name : String) → Keeps (Holds TasksSound) (scheduler_resume name)
unfolding scheduler_resume
scheduler_resume-Keeps name = record {
  at = λ s h. update-TasksSound _ (set_enabled true) s (λ n t. refl) (λ t e b. b) h;
}

module _ (next_after : String → ℤ → Result ℤ) where
  pub scheduler_register-Keeps :
      (name queue cron_expr payload : String) (priority : ℤ) (expires_s : Option ℤ)
      (max_attempts now : ℤ)
      → Keeps (Holds TasksSound) (
          scheduler_register next_after name queue cron_expr payload priority expires_s max_attempts
            now)
  unfolding scheduler_register
  scheduler_register-Keeps name queue cron_expr payload priority expires_s max_attempts now =
      checked-Keeps TasksSound max_attempts _ (λ b.
        lifted-Keeps TasksSound (next_after cron_expr now) _ (λ next. record {
          at = λ s h.
              let new =
                new_task name queue cron_expr payload priority expires_s max_attempts next in
              record {
                names =
                    upsert-OncePerKey is_task name new (λ t. true) (reregistered new)
                      (λ j e x.
                        ground (arith, e, eq_iff name j, eq_iff x.name j, eq_iff x.name name))
                      (λ j x e.
                        ground (arith, e, eq_iff x.name name, eq_iff x.name j, eq_iff name j))
                      s h.names;
                budgets =
                    All-upsert HasBudget (is_task name) new (λ t. true) (reregistered new) b
                      (λ t c. b) s h.budgets;
              };
        }))

  abbrev edit_rows :
      String
      → Option String
      → Option String
      → Option ℤ
      → Option (Option ℤ)
      → Option (Option ℤ)
      → Option ℤ
      → Action (List Task) ℕ
  edit_rows name cron_expr payload priority expires_s max_attempts next rows = (
    ok 1,
    update (is_task name) (edited next_after cron_expr payload priority expires_s max_attempts next)
        rows,
  )

  edited-Keeps :
      (name : String) (cron_expr payload : Option String) (priority : Option ℤ)
      (expires_s max_attempts : Option (Option ℤ)) (now : ℤ)
      → ((next : Option ℤ) (t : Task)
          → HasBudget t
          → HasBudget (edited next_after cron_expr payload priority expires_s max_attempts next t))
      → Keeps (Holds TasksSound) (
          lift (next_of next_after cron_expr now)
          >>= edit_rows name cron_expr payload priority expires_s max_attempts)
  edited-Keeps name cron_expr payload priority expires_s max_attempts now b =
      lifted-Keeps TasksSound (next_of next_after cron_expr now) _ (λ next. record {
        at = λ s h.
            update-TasksSound (is_task name)
              (edited next_after cron_expr payload priority expires_s max_attempts next) s
              (λ n t. refl) (λ t e c. b next t c) h;
      })

  if-Keeps :
      {A : Type 0} (c : List Task → Bool) (m n : Action (List Task) A)
      → Keeps (Holds TasksSound) m
      → Keeps (Holds TasksSound) n
      → Keeps (Holds TasksSound) (λ tasks. (if c tasks then m else n) tasks)
  if-Keeps c m n km kn = record {
    at = λ s. (Keeps-if (Holds-Preorder TasksSound) (c s) m n km kn).at s;
  }

  pub scheduler_update-Keeps :
      (name : String) (cron_expr payload : Option String) (priority : Option ℤ)
      (expires_s max_attempts : Option (Option ℤ)) (now : ℤ)
      → Keeps
          (Holds TasksSound)
          (scheduler_update next_after name cron_expr payload priority expires_s max_attempts now)
  unfolding scheduler_update
  scheduler_update-Keeps name cron_expr payload priority expires_s max_attempts now =
      with_max max_attempts
    where
      gone : Keeps (Holds TasksSound) {A = ℕ} (pure 0)
      gone = Keeps-pure (Holds-Preorder TasksSound) 0

      with_max :
          (m : Option (Option ℤ))
          → Keeps
              (Holds TasksSound)
              (scheduler_update next_after name cron_expr payload priority expires_s m now)
      with_max none =
          if-Keeps _ (pure 0) _ gone
            (edited-Keeps name cron_expr payload priority expires_s none now (λ next t c. c))
      with_max (some none) = if-Keeps _ (pure 0) _ gone (
          edited-Keeps name cron_expr payload priority expires_s (some none) now
            (λ next t c. omega arith))
      with_max (some (some m)) = checked-Keeps TasksSound m _ (λ b. if-Keeps _ (pure 0) _ gone (
          edited-Keeps name cron_expr payload priority expires_s (some (some m)) now
            (λ next t c. b)))
