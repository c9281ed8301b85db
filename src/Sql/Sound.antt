-- ===== src/Sql/Sound.antt =====
-- The invariants of the tables, and the operations that keep them (honker-core/src/honker_ops.rs).
use honker.Base.{
  Bool, ◌≤◌, String, ◌≡◌, refl, inl, inr, true, ◌||◌, List, arith, eq_iff, Bool-cases, All, subst,
  Option,
}
use honker.Stream.{behind, stream_save_offset, moved_to, stream_publish}
use honker.Table.{count_if, limit, reject}
use honker.RateLimit.{rate_limit_try, counted, window_of, is_window, Window, rate_limit_sweep}
use honker.Scheduler.{Task, is_task}
use honker.Stream.{Consumer, is_consumer, Streams}
use honker.Base.Int.{leb_ℤ, ℤ, ◌≤ℤ◌, pos}
use honker.Stream.Ordered.{IsOrdered, stream_publish-IsOrdered}
use honker.Action.Keeps.{Preorder, Keeps}
use honker.Table.Upsert.{upsert}
use honker.Table.Keys.{count-upsert-le, count-reject-le}
use honker.Lock.{lock_acquire, lock_release, lock_renew}
use honker.Results.{result_sweep, of_job, result_save}
use honker.Lock.Exclusion.{releases, renews, lock_step-IsUnique, IsUnique, acquires, lock_step}
use honker.Client.Subscription.Marked.{publish-consumers}

-- No key stands twice.
abbrev pub OncePerKey : {K A : Type 0} → (K → A → Bool) → List A → Type 0
OncePerKey {K} key xs = (k : K) → count_if (key k) xs ≤ 1

abbrev pub consumer_key : String × String → Consumer → Bool
consumer_key (name, topic) = is_consumer name topic

abbrev pub window_key : String × ℤ → Window → Bool
window_key (name, start) = is_window name start

abbrev pub HasBudget : Task → Type 0
HasBudget t = pos 1 ≤ℤ t.max_attempts

-- Offsets increase, and each consumer has one row for a topic.
pub record StreamsSound (s : Streams) : Type 0 where
  pub ordered : IsOrdered s
  pub consumers : OncePerKey consumer_key s.consumers

-- Each name stands once, and each task may enqueue a job.
pub record TasksSound (tasks : List Task) : Type 0 where
  pub names : OncePerKey is_task tasks
  pub budgets : All HasBudget tasks

abbrev pub Holds {ℓ} : {S : Type ℓ} → (S → Type 0) → S → S → Type 0
Holds P s t = P s → P t

pub Holds-Preorder {ℓ} : {S : Type ℓ} (P : S → Type 0) → Preorder (Holds P)
Holds-Preorder P = record { same = λ s h. h; trans = λ s t u f g h. g (f h) }

-- An UPSERT by a primary key keeps it.
pub upsert-OncePerKey :
    {K A : Type 0} (key : K → A → Bool) (k : K) (new : A) (w : A → Bool) (f : A → A)
    → ((j : K) → key j new ≡ true → (x : A) → key j x ≡ key k x)
    → ((j : K) (x : A) → key k x ≡ true → key j (f x) ≡ key j x)
    → (xs : List A) → OncePerKey key xs
    → OncePerKey key (upsert (key k) new w f xs)
upsert-OncePerKey key k new w f agree keep xs u j =
    count-upsert-le (key j) (key k) new w f (agree j) (keep j) xs (u j)

pub reject-OncePerKey :
    {K A : Type 0} (key : K → A → Bool) (p : A → Bool) (xs : List A)
    → OncePerKey key xs
    → OncePerKey key (reject p xs)
reject-OncePerKey key p xs u j = omega (arith, u j, count-reject-le (key j) p xs)

pub rate_limit_try-Keeps :
    (name : String) (limit per now : ℤ)
    → Keeps (Holds (OncePerKey window_key)) (rate_limit_try name limit per now)
unfolding rate_limit_try window_of
rate_limit_try-Keeps name limit per now = record {
  at = λ s u. elim (Bool-cases (leb_ℤ limit (pos 0) || leb_ℤ per (pos 0))) [
    | inl e ↦ rw e u
    | inr e ↦ rw e (
        upsert-OncePerKey window_key (name, window_of now per) _ _ counted
          (λ j h x. ground (arith, h, eq_iff name j.0, eq_iff x.name j.0, eq_iff x.name name))
          (λ j x e. refl) s u)
  ];
}

pub rate_limit_sweep-Keeps :
    (older_than_s now : ℤ)
    → Keeps (Holds (OncePerKey window_key)) (rate_limit_sweep older_than_s now)
unfolding rate_limit_sweep
rate_limit_sweep-Keeps older_than_s now = record { at = λ s u. reject-OncePerKey window_key _ s u }

pub result_save-Keeps :
    (job : ℤ) (value : String) (ttl_s now created : ℤ)
    → Keeps (Holds (OncePerKey of_job)) (result_save job value ttl_s now created)
unfolding result_save
result_save-Keeps job value ttl_s now created = record {
  at = λ s u.
      upsert-OncePerKey of_job job _ (λ r. true) _ (λ j h x. ground (arith, h)) (λ j x e. refl) s u;
}

pub result_sweep-Keeps : (now : ℤ) → Keeps (Holds (OncePerKey of_job)) (result_sweep now)
unfolding result_sweep
result_sweep-Keeps now = record { at = λ s u. reject-OncePerKey of_job _ s u }

pub lock_acquire-Keeps :
    (name owner : String) (ttl_s t u : ℤ)
    → Keeps (Holds IsUnique) (lock_acquire name owner ttl_s t u)
unfolding lock_acquire lock_step
lock_acquire-Keeps name owner ttl_s t u = record {
  at = λ s h. lock_step-IsUnique (acquires name owner ttl_s t u) s h;
}

pub lock_release-Keeps : (name owner : String) → Keeps (Holds IsUnique) (lock_release name owner)
unfolding lock_release lock_step
lock_release-Keeps name owner = record { at = λ s h. lock_step-IsUnique (releases name owner) s h }

pub lock_renew-Keeps :
    (name owner : String) (ttl_s now : ℤ) → Keeps (Holds IsUnique) (lock_renew name owner ttl_s now)
unfolding lock_renew lock_step
lock_renew-Keeps name owner ttl_s now = record {
  at = λ s h. lock_step-IsUnique (renews name owner ttl_s now) s h;
}

pub stream_publish-Keeps :
    (topic : String) (key : Option String) (payload : String) (created : ℤ)
    → Keeps (Holds StreamsSound) (stream_publish topic key payload created)
stream_publish-Keeps topic key payload created = record {
  at = λ s h. record {
    ordered = stream_publish-IsOrdered topic key payload created s h.ordered;
    consumers =
        subst (OncePerKey consumer_key) (publish-consumers topic key payload created s) h.consumers;
  };
}

pub stream_save_offset-Keeps :
    (name topic : String) (offset : ℤ)
    → Keeps (Holds StreamsSound) (stream_save_offset name topic offset)
unfolding stream_save_offset
stream_save_offset-Keeps name topic offset = record {
  at = λ s h. record {
    ordered = record { increasing = h.ordered.increasing; fresh = h.ordered.fresh };
    consumers =
        upsert-OncePerKey consumer_key (name, topic) _ (behind offset) (moved_to offset)
          (λ j h x. ground (
            arith,
            h,
            eq_iff name j.0,
            eq_iff x.name j.0,
            eq_iff x.name name,
            eq_iff topic j.1,
            eq_iff x.topic j.1,
            eq_iff x.topic topic,
          ))
          (λ j x e. refl) s.consumers h.consumers;
  };
}
