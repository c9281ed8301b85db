-- ===== src/Scheduler/Fires.antt =====
-- The loop of `scheduler_tick` over the boundaries of one task (honker-core/src/honker_ops.rs).
use honker.Scheduler.{Task}
use honker.Scheduler.Tick.{catch_up, Caught, fire_of, fired, submit_fire, Fire}
use honker.Queue.Rows.{Jobs}
use honker.Base.Int.{ℤ, ◌<ℤ◌, ◌≤ℤ◌, leb_ℤ}
use honker.Action.{◌>>=◌, lift, ok, pure, err, Result, Action, resume}
use honker.Queue.Submit.{check_max_attempts, new_row, enqueue_at}
use honker.Action.Outcome.{run_eq, bind_ok}
use honker.Base.{
  ℕ, zero, suc, ◌+◌, ◌≤◌, ◌≡◌, ap, inl, inr, none, [], ◌∷◌, arith, Bool-cases, length,
  length-append, All, refl, subst, false, String, ◌⊎◌, List,
}
use honker.Client.Subscription.{next}

module _ (next_after : String → ℤ → Result ℤ) (tick_at : ℤ) where
  -- The fires of a task are at its boundaries from `next` on, one after the other, until one is past
  -- the tick or no fire is left.
  abbrev pub CaughtUp : ℕ → Task → ℤ → List Fire → Type 0
  CaughtUp left t next [] = (tick_at <ℤ next) ⊎ (left ≡ 0)
  CaughtUp left t next (f ∷ fs) =
      (f.name ≡ t.name)
      × (f.queue ≡ t.queue)
      × (f.fire_at ≡ next)
      × (next ≤ℤ tick_at)
      × ((less : ℕ) × (after : ℤ) × (left ≡ suc less)
          × (next_after t.cron_expr next ≡ ok after)
          × CaughtUp less t after fs)

module _ (next_after : String → ℤ → Result ℤ) (tick_at now : ℤ) (created : ℕ → ℤ)
    (strict : (expr : String) (u : ℤ) → next_after expr tick_at ≡ ok u → tick_at <ℤ u) where
  -- The loop ends past the tick, fires as `CaughtUp` says and at most `left` times, and each fire adds
  -- one job.
  pub record IsCaught (left : ℕ) (t : Task) (next : ℤ) (db db' : Jobs) (c : Caught) : Type 0 where
    pub passed : tick_at <ℤ c.next
    pub few : length c.fires ≤ left
    pub times : All (λ f. f.fire_at ≤ℤ tick_at) c.fires
    pub caught_up : CaughtUp next_after tick_at left t next c.fires
    pub added : length db'.live ≡ length db.live + length c.fires

  submit_adds :
      (t : Task) (db db' : Jobs) (job : ℕ)
      → (submit_fire next_after tick_at now created t db).0 ≡ ok job
      → (submit_fire next_after tick_at now created t db).1 ≡ db'
      → length db'.live ≡ length db.live + 1
  unfolding enqueue_at check_max_attempts
  submit_adds t db db' job h k = ground (
    arith,
    h,
    ap (λ (x : Jobs). length x.live) k,
    length-append db.live (
        new_row db.next_id now (created db.next_id) t.queue t.payload none none t.priority
          t.max_attempts t.expires_s
        ∷ []),
  )

  no_fires :
      {next : ℤ} {db db' : Jobs} {c : Caught}
      → pure {S = Jobs} {A = Caught} (record { next = next; fires = [] }) db ≡ (ok c, db')
      → [] ≡ c.fires
  no_fires h = ground (arith, h)

  stopped :
      (left : ℕ) (t : Task) (next : ℤ) (db db' : Jobs) (c : Caught)
      → leb_ℤ next tick_at ≡ false
      → pure {S = Jobs} {A = Caught} (record { next = next; fires = [] }) db ≡ (ok c, db')
      → IsCaught left t next db db' c
  stopped left t next db db' c e h = record {
    caught_up =
        subst (CaughtUp next_after tick_at left t next) (no_fires h) (inl (ground (arith, e)));
    passed = ground (arith, e, h);
    few = ground (arith, h);
    times = ground (arith, h);
    added = ground (arith, h);
  }

  skipped :
      (t : Task) (at : ℤ) (next : Result ℤ) (db db' : Jobs) (c : Caught)
      → next_after t.cron_expr tick_at ≡ next
      → resume next (λ after. pure (record { next = after; fires = [] })) db ≡ (ok c, db')
      → IsCaught 0 t at db db' c
  skipped t at (ok after) db db' c e h = record {
    caught_up = subst (CaughtUp next_after tick_at 0 t at) (no_fires h) (inr refl);
    passed = ground (arith, strict t.cron_expr after e, h);
    few = ground (arith, h);
    times = ground (arith, h);
    added = ground (arith, h);
  }
  skipped t at (err x) db db' c e h = absurd (ground (arith, h))

  -- A round puts a fire before those of the rest of the loop.
  one_more :
      (left : ℕ) (t : Task) (next after : ℤ) (job : ℕ) (db db₁ db' : Jobs) (c c' : Caught)
      → next ≤ℤ tick_at
      → next_after t.cron_expr next ≡ ok after
      → length db₁.live ≡ length db.live + 1
      → IsCaught left t after db₁ db' c
      → fired (fire_of t next job) c ≡ c'
      → IsCaught (suc left) t next db db' c'
  one_more left t next after job db db₁ db' c c' b n a r e =
      subst (IsCaught (suc left) t next db db') e (record {
        passed = r.passed;
        few = omega (arith, r.few);
        times = (b, r.times);
        caught_up = (refl, refl, refl, b, (left, after, refl, n, r.caught_up));
        added = omega (arith, a, r.added);
      })

  pub catch_up-IsCaught :
      (left : ℕ) (t : Task) (next : ℤ) (db db' : Jobs) (c : Caught)
      → catch_up next_after tick_at now created left t next db ≡ (ok c, db')
      → IsCaught left t next db db' c
  unfolding catch_up
  catch_up-IsCaught zero t next db db' c h = elim (Bool-cases (leb_ℤ next tick_at)) [
    | inl e ↦ skipped t next (next_after t.cron_expr tick_at) db db' c refl (rw (catch_up, e) at h)
    | inr e ↦ stopped 0 t next db db' c e (rw (catch_up, e) at h)
  ]
  catch_up-IsCaught (suc left) t next db db' c h = elim (Bool-cases (leb_ℤ next tick_at)) [
    | inl e ↦
        let submit = submit_fire next_after tick_at now created t in
        let go_on : ℤ → Action Jobs Caught =
          λ after. catch_up next_after tick_at now created left t after in
        let rest : ℕ → Action Jobs Caught = λ job. lift (next_after t.cron_expr next) >>= λ after.
        go_on after >>= λ caught. pure (fired (fire_of t next job) caught) in
        let h' : (submit >>= rest) db ≡ (ok c, db') = rw (catch_up, e) at h in
        let (job, f, g, d) =
          bind_ok submit rest db db' c (ap (λ (x : Result Caught × Jobs). x.0) h')
            (ap (λ (x : Result Caught × Jobs). x.1) h') in
        let s₁ = (submit db).1 in
        let tail : ℤ → Action Jobs Caught =
          λ after. go_on after >>= λ caught. pure (fired (fire_of t next job) caught) in
        let (after, f₂, g₂, d₂) =
          bind_ok (lift {S = Jobs} (next_after t.cron_expr next)) tail s₁ db' c g d in
        let (caught, f₃, g₃, d₃) =
          bind_ok (go_on after) (λ caught. pure (fired (fire_of t next job) caught)) s₁ db' c g₂
            d₂ in
        one_more left t next after job db s₁ db' caught c (ground (arith, e)) f₂
          (submit_adds t db s₁ job f refl)
          (catch_up-IsCaught left t after s₁ db' caught (run_eq f₃ d₃)) (ground (arith, g₃))
    | inr e ↦ stopped (suc left) t next db db' c e (rw (catch_up, e) at h)
  ]
