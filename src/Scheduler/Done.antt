-- ===== src/Scheduler/Done.antt =====
-- What a successful `scheduler_tick` leaves (honker-core/src/honker_ops.rs).
use honker.Scheduler.{Task, is_task, set_next, by_name}
use honker.Scheduler.Tick.{
  is_due_task, store_next, Fire, catch_up, max_catchup_fires, Schedule, fire_task, Caught,
  fire_tasks, scheduler_tick_inner, scheduler_tick,
}
use honker.Base.Int.{ℤ, ◌<ℤ◌, ◌≤ℤ◌}
use text.Mathlib.TextPositions.{eq_refl}
use honker.Table.{update, select, count_if, order_by}
use honker.Base.{
  ℕ, ◌≤◌, ◌<◌, ◌≡◌, refl, Bool, not, ◌&&◌, List, [], ◌∷◌, arith, str_eq, eq_iff, ltb, All, All-imp,
  ◌+◌, ◌*◌, ap, subst, ◌++◌, length-append, length, All-append, true, String,
}
use honker.Action.{ok, pure, ◌>>=◌, Result, err, Action}
use honker.Queue.Rows.{Jobs}
use honker.Scheduler.Fires.{catch_up-IsCaught, CaughtUp}
use honker.Action.Outcome.{bind_ok, in_savepoint_ok, run_eq}
use honker.Table.Counts.{length-select, count_if-order_by, count_if_imp}
use honker.Client.Subscription.{next}

abbrev same_name : Task → Task → Bool
same_name r t = str_eq t.name r.name

-- A task of the list has the row's name.
abbrev named_in : List Task → Task → Bool
named_in ts r = ltb 0 (count_if (same_name r) ts)

names_itself : (xs : List Task) → All (λ r. 0 < count_if (same_name r) xs) xs
names_itself [] = tt
names_itself (x ∷ xs) =
    (ground (arith, eq_refl x.name), All-imp _ _ (λ r h. omega (arith, h)) xs (names_itself xs))

none_out :
    (p : Task → Bool) (zs xs : List Task)
    → All (λ r. 0 < count_if (same_name r) zs) (select p xs)
    → count_if (λ r. p r && not (named_in zs r)) xs ≡ 0
none_out p zs [] h = refl
none_out p zs (x ∷ xs) h = ground (arith, none_out p zs xs)

length-order_by : (xs : List Task) → length (order_by by_name xs) ≡ length xs
length-order_by xs = omega (
  arith,
  all_counted xs,
  all_counted (order_by by_name xs),
  count_if-order_by (λ (r : Task). true) by_name xs,
)
  where
    all_counted : (ys : List Task) → count_if (λ r. true) ys ≡ length ys
    all_counted [] = refl
    all_counted (y ∷ ys) = omega (arith, all_counted ys)

module _ (tick_at : ℤ) where
  -- Due rows of tasks that the rest of the loop does not come to.
  abbrev left_out : List Task → List Task → ℕ
  left_out ts rows = count_if (λ r. is_due_task tick_at r && not (named_in ts r)) rows

  left_out-store :
      (t : Task) (ts rows : List Task) (next : ℤ)
      → tick_at <ℤ next
      → left_out ts (update (is_task t.name) (set_next next) rows) ≤ left_out (t ∷ ts) rows
  left_out-store t ts [] next h = omega arith
  left_out-store t ts (r ∷ rs) next h =
      ground (arith, left_out-store t ts rs next h, eq_iff r.name t.name, eq_iff t.name r.name)

module _ (next_after : String → ℤ → Result ℤ) (tick_at : ℤ) where
  -- The fires are those of one task after the other, each of them caught up.
  abbrev pub AllCaughtUp : List Task → List Fire → Type 0
  AllCaughtUp [] fires = fires ≡ []
  AllCaughtUp (t ∷ ts) fires =
      (own : List Fire) × (rest : List Fire) × (own ++ rest ≡ fires)
      × CaughtUp next_after tick_at max_catchup_fires t t.next_fire_at own
      × AllCaughtUp ts rest

module _ (next_after : String → ℤ → Result ℤ) (tick_at now : ℤ) (created : ℕ → ℤ)
    (strict : (expr : String) (u : ℤ) → next_after expr tick_at ≡ ok u → tick_at <ℤ u) where
  -- What the loop over the due tasks `ts` does.
  pub record IsFired (ts : List Task) (s s' : Schedule) (fires : List Fire) : Type 0 where
    pub passed : left_out tick_at [] s'.tasks ≤ left_out tick_at ts s.tasks
    pub few : length fires ≤ max_catchup_fires * length ts
    pub times : All (λ f. f.fire_at ≤ℤ tick_at) fires
    pub caught_up : AllCaughtUp next_after tick_at ts fires
    pub added : length s'.jobs.live ≡ length s.jobs.live + length fires

  one_task :
      (t : Task) (ts : List Task) (s s' : Schedule) (jobs : Jobs) (r : Result Caught)
      (fires rest all : List Fire) (s₁ : Schedule)
      → catch_up next_after tick_at now created max_catchup_fires t t.next_fire_at s.jobs
        ≡ (r, jobs)
      → store_next next_after tick_at now created t r s.tasks jobs ≡ (ok fires, s₁)
      → IsFired ts s₁ s' rest
      → fires ++ rest ≡ all
      → IsFired (t ∷ ts) s s' all
  one_task t ts s s' jobs (err x) fires rest all s₁ e h i g = absurd (ground (arith, h))
  one_task t ts s s' jobs (ok c) fires rest all s₁ e h i g =
      let k =
        catch_up-IsCaught next_after tick_at now created strict max_catchup_fires t t.next_fire_at
          s.jobs jobs c e in
      let same : c.fires ≡ fires = ground (arith, h) in
      let rows : s₁.tasks ≡ update (is_task t.name) (set_next c.next) s.tasks = ground (arith, h) in
      let after : s₁.jobs ≡ jobs = ground (arith, h) in
      subst (IsFired (t ∷ ts) s s') g (record {
        passed = omega (
          arith,
          i.passed,
          left_out-store tick_at t ts s.tasks c.next k.passed,
          ap (left_out tick_at ts) rows,
        );
        few = omega (arith, i.few, k.few, ap length same, length-append fires rest);
        times =
            All-append (λ f. f.fire_at ≤ℤ tick_at) fires rest
              (subst (All (λ f. f.fire_at ≤ℤ tick_at)) same k.times) i.times;
        caught_up = (
          fires,
          rest,
          refl,
          subst (CaughtUp next_after tick_at max_catchup_fires t t.next_fire_at) same k.caught_up,
          i.caught_up,
        );
        added = omega (
          arith,
          i.added,
          k.added,
          ap length same,
          length-append fires rest,
          ap (λ (x : Jobs). length x.live) after,
        );
      })

  fire_tasks-IsFired :
      (ts : List Task) (s s' : Schedule) (fires : List Fire)
      → (fire_tasks next_after tick_at now created ts s).0 ≡ ok fires
      → (fire_tasks next_after tick_at now created ts s).1 ≡ s'
      → IsFired ts s s' fires
  unfolding fire_tasks fire_task
  fire_tasks-IsFired [] s s' fires h k = record {
    passed = omega (arith, ap (λ (x : Schedule). left_out tick_at [] x.tasks) k);
    few = ground (arith, h);
    times = ground (arith, h);
    caught_up = ground (arith, h);
    added = ground (arith, h, k);
  }
  fire_tasks-IsFired (t ∷ ts) s s' fires h k =
      let rest_of : List Fire → Action Schedule (List Fire) =
        λ own. fire_tasks next_after tick_at now created ts >>= λ rest. pure (own ++ rest) in
      let (own, f, g, d) =
        bind_ok (fire_task next_after tick_at now created t) rest_of s s' fires h k in
      let s₁ = (fire_task next_after tick_at now created t s).1 in
      let (rest, f₂, g₂, d₂) =
        bind_ok (fire_tasks next_after tick_at now created ts) (λ rest. pure (own ++ rest)) s₁ s'
          fires g d in
      one_task t ts s s' _ _ own rest fires s₁ refl (run_eq f refl)
        (fire_tasks-IsFired ts s₁ s' rest f₂ d₂) (ground (arith, g₂))

  -- A tick that succeeds leaves no enabled task due. Its fires are, for one task that was due after the
  -- other in the order of the names, those at the boundaries of the task's schedule from its own
  -- `next_fire_at` on: each is the next boundary after the one before it, none is past the time of the
  -- tick, and they end at the last boundary before that or after 64 fires of the task. Each fire adds one
  -- job to the queues. It is assumed that the next boundary after the time of the tick, where a schedule
  -- has one, is later than that time.
  pub scheduler_tick_done :
      (s s' : Schedule) (fires : List Fire)
      → scheduler_tick next_after tick_at now created s ≡ (ok fires, s')
      → (count_if (is_due_task tick_at) s'.tasks ≡ 0)
        × (length fires ≤ max_catchup_fires * count_if (is_due_task tick_at) s.tasks)
        × All (λ f. f.fire_at ≤ℤ tick_at) fires
        × AllCaughtUp next_after tick_at
            (order_by by_name (select (is_due_task tick_at) s.tasks))
            fires
        × (length s'.jobs.live ≡ length s.jobs.live + length fires)
  unfolding scheduler_tick scheduler_tick_inner
  scheduler_tick_done s s' fires h =
      let due = select (is_due_task tick_at) s.tasks in
      let (f, g) =
        in_savepoint_ok (scheduler_tick_inner next_after tick_at now created) s s' fires h in
      let k = fire_tasks-IsFired (order_by by_name due) s s' fires f g in
      let none_left : left_out tick_at (order_by by_name due) s.tasks ≡ 0 =
        none_out (is_due_task tick_at) (order_by by_name due) s.tasks (
          All-imp _ _ (λ r m. omega (arith, m, count_if-order_by (same_name r) by_name due)) due
            (names_itself due)) in
      (
        omega (
          arith,
          k.passed,
          none_left,
          count_if_imp (is_due_task tick_at) (λ r. is_due_task tick_at r && not (named_in [] r))
              (λ r m. ground (arith, m)) s'.tasks,
        ),
        omega (arith, k.few, length-select (is_due_task tick_at) s.tasks, length-order_by due),
        k.times,
        k.caught_up,
        k.added,
      )
