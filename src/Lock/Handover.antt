-- ===== src/Lock/Handover.antt =====
-- Renewing and releasing a lock (honker-core/src/honker_ops.rs, `lock_renew` and `lock_release`).
use honker.Lock.{Lock, named, renewed, lock_renew, lock_acquire, lock_release, owned}
use honker.Lock.Exclusion.{
  IsUnique, LockCall, held-lock_run, takes_free, lock_run-IsUnique, is_held, all_foreign, refuses,
  lock_run, lock_step,
}
use honker.Base.Int.{ℤ, ◌+ℤ◌, ◌<ℤ◌, pos, ltb_ℤ, leb_ℤ}
use honker.Action.{ok}
use honker.Table.{count_if, count_if-select, reject, count_if-update, update}
use honker.Table.Counts.{count_if-select_and, count_if_imp}
use honker.Base.{◌≤◌, ◌<◌, String, ◌≡◌, refl, ap, ◌≢◌, true, false, ◌&&◌, List, [], ◌∷◌, arith}

pub renewed_held :
    (name a : String) (e : ℤ) (locks : List Lock)
    → count_if (owned name a) locks
      ≤ count_if (is_held name a e) (update (owned name a) (renewed e) locks)
renewed_held name a e [] = omega arith
renewed_held name a e (l ∷ ls) = ground (arith, renewed_held name a e ls)

-- Where no name is locked twice, the owner's renewal for a positive time returns 1, and nobody else
-- acquires the lock until that time is over, whatever calls are made before that, as long as the
-- owner does not release or renew it again.
lock_renew_holds :
    (name a b : String) (ttl_s now ttl_s' t' u' : ℤ) (cs : List LockCall) (locks : List Lock)
    → IsUnique locks
    → pos 0 <ℤ ttl_s
    → 0 < count_if (owned name a) locks
    → a ≢ b
    → all_foreign name a (now +ℤ ttl_s) cs ≡ true
    → t' <ℤ now +ℤ ttl_s
    → ((lock_renew name a ttl_s now locks).0 ≡ ok 1)
      × ((lock_acquire name b ttl_s' t' u' (lock_run (lock_renew name a ttl_s now locks).1 cs)).0
          ≡ ok 0)
unfolding lock_renew lock_step
lock_renew_holds name a b ttl_s now ttl_s' t' u' cs locks unique p mine d foreign early =
    let e = now +ℤ ttl_s in
    let after = update (owned name a) (renewed e) locks in
    let guard : leb_ℤ ttl_s (pos 0) ≡ false = ground (arith, p) in
    let after-IsUnique : IsUnique after = λ n.
      omega
        (arith, unique n, count_if-update (named n) (owned name a) (renewed e) (λ l. refl) locks) in
    rw guard (
      ground (arith, mine),
      refuses name a e b ttl_s' t' u' (lock_run after cs)
          (lock_run-IsUnique cs after after-IsUnique)
          (omega
            (arith, mine, renewed_held name a e locks, held-lock_run name a e cs after foreign))
          d early,
    )

-- Where no name is locked twice, the owner's release returns 1, whether or not the lock had
-- expired, and the next worker who asks gets the lock.
pub lock_handover :
    (name a b : String) (ttl_s t u : ℤ) (locks : List Lock)
    → IsUnique locks
    → 0 < count_if (owned name a) locks
    → ((lock_release name a locks).0 ≡ ok 1)
      × ((lock_acquire name b ttl_s t u (lock_release name a locks).1).0 ≡ ok 1)
unfolding lock_release
lock_handover name a b ttl_s t u locks unique mine =
    let one : count_if (owned name a) locks ≡ 1 = omega (
      arith,
      mine,
      unique name,
      count_if_imp (owned name a) (named name) (λ l h. ground (arith, h)) locks,
    ) in
    (
      ap ok one,
      (takes_free name b ttl_s t u (reject (owned name a) locks) (
          omega (
            arith,
            unique name,
            one,
            count_if-select (named name) (owned name a) locks,
            count_if_imp (owned name a) (λ l. named name l && owned name a l)
                (λ l h. ground (arith, h)) locks,
            count_if-select_and (named name) (owned name a) locks,
            count_if_imp (λ l. named name l && ltb_ℤ t l.expires_at) (named name)
                (λ l h. ground (arith, h)) (reject (owned name a) locks),
          ))).0,
    )
