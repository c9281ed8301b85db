-- ===== src/Client/Leader.antt =====
-- `Scheduler::run` of the Rust wrapper: processes that compete for the lock of the scheduler
-- (packages/honker-rs/src/lib.rs).
pub mod Exclusive
pub mod Wait
use honker.Base.{Bool, ℕ, String, List, [], ◌∷◌, ◌==◌, if◌then◌else◌, false, ◌||◌, str_eq}
use honker.Action.{Result, ◌>>◌, ◌>>=◌, Action, pure, ok}
use honker.Lock.{lock_release, Lock, lock_acquire, lock_renew}
use honker.Client.{with_conn}
use honker.Base.Int.{pos, ℤ}
use honker.Scheduler.Tick.{scheduler_tick, Fire, Schedule}

-- The tables that the processes share, and the owners that are between the renewal and the tick of a
-- round.
pub record Site : Type 0 where
  pub locks : List Lock
  pub schedule : Schedule
  pub ready : List String

abbrev pub lock_name : String
lock_name = "honker-scheduler"

abbrev pub lock_ttl : ℤ
lock_ttl = pos 60

abbrev pub on_lock : Action (List Lock) ℕ → Action Site ℕ
on_lock m x = let (r, locks) = m x.locks in (r, record x { locks = locks })

abbrev pub on_schedule : Action Schedule (List Fire) → Action Site (List Fire)
on_schedule m x = let (r, s) = m x.schedule in (r, record x { schedule = s })

unfoldable pub lock_try_acquire : Bool → String → ℤ → ℤ → Action Site Bool
lock_try_acquire down owner t u = do
  n ← with_conn down (on_lock (lock_acquire lock_name owner lock_ttl t u))
  pure (n == 1)

-- A failed release is ignored.
unfoldable pub release_lock : Bool → String → Action Site ℕ
release_lock down owner = with_conn down (on_lock (lock_release lock_name owner))

-- What a round of `leader_loop` comes to.
pub data Round : Type 0 where
  lost : Round
  led : List Fire → Round

abbrev pub is_ready : String → List String → Bool
is_ready owner [] = false
is_ready owner (o ∷ os) = str_eq o owner || is_ready owner os

abbrev pub remove_owner : String → List String → List String
remove_owner owner [] = []
remove_owner owner (o ∷ os) =
    let rest = remove_owner owner os in if str_eq o owner then rest else o ∷ rest

-- `still_ours` of a round.
abbrev pub still_leading : String → ℕ → Action Site ℕ
still_leading owner still_ours x =
    (ok still_ours, if still_ours == 0 then x else record x { ready = owner ∷ x.ready })

unfoldable pub renew : Bool → String → ℤ → Action Site ℕ
renew down owner now = do
  still_ours ← with_conn down (on_lock (lock_renew lock_name owner lock_ttl now))
  still_leading owner still_ours

abbrev pub meanwhile : (Site → Site) → Action Site Unit
meanwhile others x = (ok tt, others x)

abbrev pub done_ticking : String → Site → Site
done_ticking owner x = record x { ready = remove_owner owner x.ready }

module _ (next_after : String → ℤ → Result ℤ) where
  -- The tick runs for `tick_at`, with its own readings of the clock.
  unfoldable pub tick : Bool → String → ℤ → ℤ → (ℕ → ℤ) → Action Site (List Fire)
  tick down owner tick_at tick_now created x =
      with_conn down (on_schedule (scheduler_tick next_after tick_at tick_now created))
        (done_ticking owner x)

  -- A round of `leader_loop` up to its wait. `others` is what other processes do between its two calls,
  -- of which `renew_down` and `tick_down` say whether they fail.
  unfoldable pub leader_round :
      (renew_down tick_down : Bool)
      → String
      → ℤ
      → (Site → Site)
      → ℤ
      → ℤ
      → (ℕ → ℤ)
      → Action Site Round
  leader_round renew_down tick_down owner now others tick_at tick_now created = do
    still_ours ← renew renew_down owner now
    if still_ours == 0 then pure lost else (do
      meanwhile others
      fires ← tick tick_down owner tick_at tick_now created
      pure (led fires))

  -- A process tries to become the leader, makes one of the two calls of a round, or leaves.
  pub data Step : Type 0 where
    tries : (down : Bool) (owner : String) (t u : ℤ) → Step
    renews_lock : (down : Bool) (owner : String) (now : ℤ) → Step
    ticks : (down : Bool) (owner : String) (tick_at tick_now : ℤ) (created : ℕ → ℤ) → Step
    leaves : (down : Bool) (owner : String) → Step

  -- Only a process whose renewal went through goes on to the tick.
  unfoldable pub site_step : Step → Site → Site
  site_step (tries down owner t u) x = (lock_try_acquire down owner t u x).1
  site_step (renews_lock down owner now) x = (renew down owner now x).1
  site_step (ticks down owner tick_at tick_now created) x =
      if is_ready owner x.ready then (tick down owner tick_at tick_now created x).1 else x
  site_step (leaves down owner) x = (release_lock down owner x).1

  unfoldable pub site_run : List Step → Site → Site
  site_run [] x = x
  site_run (s ∷ ss) x = site_run ss (site_step s x)
