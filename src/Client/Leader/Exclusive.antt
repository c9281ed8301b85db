-- ===== src/Client/Leader/Exclusive.antt =====
-- One leader at a time (packages/honker-rs/src/lib.rs, `Scheduler::run`).
use honker.Base.{
  Bool, ◌+◌, ◌≤◌, ◌<◌, String, ◌≡◌, true, false, not, ◌&&◌, List, [], ◌∷◌, arith, str_eq, eq_iff, ℕ,
  refl, ◌∙◌, inl, inr, ltb, Bool-cases, sym, ap,
}
use honker.Action.{ok, Result, pure, err, resume, busy}
use text.Mathlib.TextPositions.{eq_refl}
use honker.Lock.{Lock, named, lock_renew, owned, lock_acquire}
use honker.Table.{count_if}
use honker.Lock.Exclusion.{
  lock_step, held-lock_step, IsUnique, lock_step-IsUnique, is_held, LockCall, releases, acquires,
  renews,
}
use honker.Base.Int.{ℤ, ltb_ℤ, ◌+ℤ◌}
use honker.Client.Leader.{
  renews_lock, ticks, lock_ttl, Step, tries, leaves, lock_name, site_step, release_lock,
  leader_round, Site, site_run, lock_try_acquire, led, is_ready, remove_owner, renew, done_ticking,
  tick,
}
use honker.Lock.Exclusion.{is_foreign}
use honker.Lock.Handover.{renewed_held}
use honker.Scheduler.Tick.{scheduler_tick, Schedule, Fire}
use honker.Action.Outcome.{run_eq}

-- The locks, where `a` has the scheduler's lock until `e` or longer.
record IsLed (a : String) (e : ℤ) (locks : List Lock) : Type 0 where
  unique : IsUnique locks
  held : 0 < count_if (is_held lock_name a e) locks

-- A step of another process, which asks for the lock before `e` if it asks for it.
abbrev pub is_other : {next_after : String → ℤ → Result ℤ} → String → ℤ → Step next_after → Bool
is_other a e (tries down owner t u) = not (str_eq owner a) && ltb_ℤ t e
is_other a e (renews_lock down owner now) = not (str_eq owner a)
is_other a e (ticks down owner tick_at tick_now created) = not (str_eq owner a)
is_other a e (leaves down owner) = not (str_eq owner a)

abbrev pub all_others :
    {next_after : String → ℤ → Result ℤ} → String → ℤ → List (Step next_after) → Bool
all_others a e [] = true
all_others a e (s ∷ ss) = is_other a e s && all_others a e ss

-- Nobody but `a` is between the renewal and the tick of a round.
abbrev pub only_ready : String → List String → Bool
only_ready a [] = true
only_ready a (o ∷ os) = str_eq o a && only_ready a os

call-IsLed :
    (a : String) (e : ℤ) (c : LockCall) (locks : List Lock)
    → is_foreign lock_name a e c ≡ true
    → IsLed a e locks
    → IsLed a e (lock_step c locks)
call-IsLed a e c locks f h = record {
  unique = lock_step-IsUnique c locks h.unique;
  held = omega (arith, h.held, held-lock_step lock_name a e c locks f);
}

-- Two owners of one lock are two rows of its name.
two_owners :
    (name a b : String) (e : ℤ)
    → str_eq b a ≡ false
    → (locks : List Lock)
    → count_if (owned name b) locks + count_if (is_held name a e) locks
      ≤ count_if (named name) locks
two_owners name a b e d [] = omega arith
two_owners name a b e d (l ∷ ls) =
    ground (arith, d, eq_iff l.owner a, eq_iff l.owner b, eq_iff b a, two_owners name a b e d ls)

not_owner :
    (a b : String) (e : ℤ) (locks : List Lock)
    → str_eq b a ≡ false
    → IsLed a e locks
    → count_if (owned lock_name b) locks ≡ 0
not_owner a b e locks d h =
    omega (arith, h.held, h.unique lock_name, two_owners lock_name a b e d locks)

renew-IsLed :
    (a b : String) (e now : ℤ) (locks : List Lock)
    → str_eq b a ≡ false
    → IsLed a e locks
    → IsLed a e (lock_renew lock_name b lock_ttl now locks).1
unfolding lock_step
renew-IsLed a b e now locks d h =
    call-IsLed a e (renews lock_name b lock_ttl now) locks (ground (arith, d)) h

-- The leader's own renewal gives it the lock for another 60 seconds.
own_renewal :
    (a : String) (now : ℤ) (locks : List Lock)
    → IsUnique locks
    → 0 < count_if (owned lock_name a) locks
    → IsLed a (now +ℤ lock_ttl) (lock_renew lock_name a lock_ttl now locks).1
unfolding lock_step lock_renew
own_renewal a now locks u h = record {
  unique = lock_step-IsUnique (renews lock_name a lock_ttl now) locks u;
  held = omega (arith, h, renewed_held lock_name a (now +ℤ lock_ttl) locks);
}

renew_loses :
    (a : String) (now : ℤ) (x : Site)
    → ltb 0 (count_if (owned lock_name a) x.locks) ≡ false
    → renew false a now x
      ≡ (ok 0, record x { locks = (lock_renew lock_name a lock_ttl now x.locks).1 })
unfolding renew lock_renew
renew_loses a now x c = rw c refl

renew_fails : (a : String) (now : ℤ) (x : Site) → renew true a now x ≡ (err busy, x)
unfolding renew
renew_fails a now x = refl

not_ready :
    (a b : String) (os : List String)
    → str_eq b a ≡ false
    → only_ready a os ≡ true
    → is_ready b os ≡ false
not_ready a b [] d h = refl
not_ready a b (o ∷ os) d h =
    ground (arith, h, eq_iff o a, eq_iff o b, eq_iff b a, d, not_ready a b os d)

only_ready-remove :
    (a : String) (os : List String)
    → only_ready a os ≡ true
    → only_ready a (remove_owner a os) ≡ true
only_ready-remove a [] h = refl
only_ready-remove a (o ∷ os) h = ground (arith, h, only_ready-remove a os)

module _ (next_after : String → ℤ → Result ℤ) (a : String) (e : ℤ) where
  -- A step of another process keeps the leader and its turn, and fires nothing.
  record Kept (x y : Site) : Type 0 where
    led_on : IsLed a e y.locks
    alone : only_ready a y.ready ≡ true
    same : y.schedule ≡ x.schedule

  step-Kept :
      (s : Step next_after) (x : Site)
      → is_other a e s ≡ true
      → IsLed a e x.locks
      → only_ready a x.ready ≡ true
      → Kept x (site_step next_after s x)
  unfolding site_step lock_try_acquire release_lock lock_step lock_acquire
  step-Kept (tries true b t u) x f h o = record { led_on = h; alone = o; same = refl }
  step-Kept (tries false b t u) x f h o = record {
    led_on = call-IsLed a e (acquires lock_name b lock_ttl t u) x.locks (ground (arith, f)) h;
    alone = o;
    same = refl;
  }
  step-Kept (renews_lock true b now) x f h o =
      rw (site_step, renew_fails b now x) (record { led_on = h; alone = o; same = refl })
  step-Kept (renews_lock false b now) x f h o =
      let d : str_eq b a ≡ false = ground (arith, f) in
      rw (site_step, renew_loses b now x (ground (arith, not_owner a b e x.locks d h)))
        (record { led_on = renew-IsLed a b e now x.locks d h; alone = o; same = refl })
  step-Kept (ticks down b tick_at tick_now created) x f h o =
      rw (not_ready a b x.ready (ground (arith, f)) o)
        (record { led_on = h; alone = o; same = refl })
  step-Kept (leaves true b) x f h o = record { led_on = h; alone = o; same = refl }
  step-Kept (leaves false b) x f h o = record {
    led_on = call-IsLed a e (releases lock_name b) x.locks (ground (arith, f)) h;
    alone = o;
    same = refl;
  }

  run-Kept :
      (ss : List (Step next_after)) (x : Site)
      → all_others a e ss ≡ true
      → IsLed a e x.locks
      → only_ready a x.ready ≡ true
      → Kept x (site_run next_after ss x)
  unfolding site_run
  run-Kept [] x f h o = record { led_on = h; alone = o; same = refl }
  run-Kept (s ∷ ss) x f h o =
      let first = step-Kept s x (ground (arith, f)) h o in
      let later =
        run-Kept ss (site_step next_after s x) (ground (arith, f)) first.led_on first.alone in
      record { led_on = later.led_on; alone = later.alone; same = later.same ∙ first.same }

-- The site after a renewal that goes through.
abbrev leading : String → ℤ → Site → Site
leading a now x = record x {
  locks = (lock_renew lock_name a lock_ttl now x.locks).1;
  ready = a ∷ x.ready;
}

renew_wins :
    (a : String) (now : ℤ) (x : Site)
    → ltb 0 (count_if (owned lock_name a) x.locks) ≡ true
    → renew false a now x ≡ (ok 1, leading a now x)
unfolding renew lock_renew
renew_wins a now x c = rw c refl

module _ (next_after : String → ℤ → Result ℤ) (a : String) (e : ℤ) where
  -- What follows the tick `r` of the leader's on the site `x`.
  after_tick :
      (r : Result (List Fire) × Schedule) (x : Site) (fires : List Fire)
      (after : List (Step next_after))
      → IsLed a e x.locks
      → only_ready a x.ready ≡ true
      → all_others a e after ≡ true
      → (resume r.0 (λ fs. pure (led fs)) (record (done_ticking a x) { schedule = r.1 })).0
        ≡ ok (led fires)
      → r ≡ (
        ok fires,
        (site_run next_after after
            (resume r.0
              (λ fs. pure (led fs))
              (record (done_ticking a x) { schedule = r.1 })).1).schedule,
      )
  after_tick (err er, s) x fires after h o g k = absurd (ground (arith, k))
  after_tick (ok fs, s) x fires after h o g k =
      let y : Site = record (done_ticking a x) { schedule = s } in
      run_eq (ground (arith, k))
        (sym (run-Kept next_after a e after y g h (only_ready-remove a x.ready o)).same)

-- A process that ticks in a round of `leader_loop` has renewed the lock of the scheduler in it. Where
-- then no other process is between the renewal and the tick of a round of its own, and no name is locked
-- twice: until 60 seconds after that renewal, whatever the other processes do between the two calls of
-- the round and after it, with calls that fail or not, the fires and the schedule are those of the
-- leader's tick alone, as long as the others' attempts to get the lock are made before then.
pub leader_round_excludes :
    (next_after : String → ℤ → Result ℤ) (renew_down tick_down : Bool) (a : String)
    (now tick_at tick_now : ℤ) (created : ℕ → ℤ) (x : Site) (fires : List Fire)
    (between after : List (Step next_after))
    → IsUnique x.locks
    → only_ready a x.ready ≡ true
    → let r =
        leader_round next_after renew_down tick_down a now
          (site_run next_after between)
          tick_at
          tick_now
          created
          x in
      r.0 ≡ ok (led fires)
      → all_others a (now +ℤ lock_ttl) between ≡ true
      → all_others a (now +ℤ lock_ttl) after ≡ true
      → scheduler_tick next_after tick_at tick_now created x.schedule ≡ (
        ok fires,
        (site_run next_after after
            (leader_round next_after renew_down tick_down a now
              (site_run next_after between)
              tick_at
              tick_now
              created
              x).1).schedule,
      )
unfolding leader_round tick
leader_round_excludes next_after true tick_down a now tick_at tick_now created x fires between after
      u o h f g =
    let h' = rw (renew_fails a now x) at h in absurd (ground (arith, h'))
leader_round_excludes next_after false true a now tick_at tick_now created x fires between after u o
      h f g =
    elim (Bool-cases (ltb 0 (count_if (owned lock_name a) x.locks))) [
      | inl c ↦ let h' = rw (renew_wins a now x c) at h in absurd (ground (arith, h'))
      | inr c ↦ let h' = rw (renew_loses a now x c) at h in absurd (ground (arith, h'))
    ]
leader_round_excludes next_after false false a now tick_at tick_now created x fires between after u
      o h f g =
    let e = now +ℤ lock_ttl in
    let z = leading a now x in
    elim (Bool-cases (ltb 0 (count_if (owned lock_name a) x.locks))) [
      | inl c ↦
          let kept =
            run-Kept next_after a e between z f (own_renewal a now x.locks u (ground (arith, c)))
              (ground (arith, o, eq_refl a)) in
          let zb = site_run next_after between z in
          let h' = rw (renew_wins a now x c) at h in
          rw (renew_wins a now x c) (
            ap (scheduler_tick next_after tick_at tick_now created) (sym kept.same)
            ∙ after_tick next_after a e
                (scheduler_tick next_after tick_at tick_now created zb.schedule) zb fires after
                kept.led_on kept.alone g h')
      | inr c ↦ let h' = rw (renew_loses a now x c) at h in absurd (ground (arith, h'))
    ]
