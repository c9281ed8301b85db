-- ===== src/Lock/Exclusion.antt =====
-- What the locks promise to several processes that use them (honker-core/src/honker_ops.rs).
use honker.Lock.{
  lock_acquire, lock_renew, lock_release, is_stale, owned, renewed, insert_or_ignore, named, Lock,
}
use text.Mathlib.TextPositions.{eq_refl}
use honker.Base.Int.{ℤ, leb_ℤ, ltb_ℤ, ◌+ℤ◌, ◌<ℤ◌}
use honker.Table.{count_if-update, reject, count_if-append, count_if-select, count_if, update}
use honker.Base.{
  ◌≤◌, String, refl, ap, Bool, true, not, ◌&&◌, List, [], ◌∷◌, arith, str_eq, eq_iff, ◌≡◌, ◌≢◌, inl,
  inr, false, Bool-cases, ◌<◌,
}
use honker.Action.{ok}
use honker.Table.Upsert.{find-none, find_unique, find-append}
use honker.Pools.Writer.Tally.{held}

-- No name is locked twice.
abbrev pub IsUnique : List Lock → Type 0
IsUnique locks = (name : String) → count_if (named name) locks ≤ 1

-- `owner` has the lock until `e` or longer.
abbrev pub is_held : String → String → ℤ → Lock → Bool
is_held name owner e l = owned name owner l && leb_ℤ e l.expires_at

pub data LockCall : Type 0 where
  acquires : (name owner : String) (ttl_s t u : ℤ) → LockCall
  releases : (name owner : String) → LockCall
  renews : (name owner : String) (ttl_s now : ℤ) → LockCall

unfoldable pub lock_step : LockCall → List Lock → List Lock
lock_step (acquires name owner ttl_s t u) locks = (lock_acquire name owner ttl_s t u locks).1
lock_step (releases name owner) locks = (lock_release name owner locks).1
lock_step (renews name owner ttl_s now) locks = (lock_renew name owner ttl_s now locks).1

unfoldable pub lock_run : List Lock → List LockCall → List Lock
lock_run locks [] = locks
lock_run locks (c ∷ cs) = lock_run (lock_step c locks) cs

-- A call that, if it acquires a lock, comes before `e`, and that is not a release or a renewal of the
-- lock `name` by `owner` himself.
abbrev pub is_foreign : String → String → ℤ → LockCall → Bool
is_foreign name owner e (acquires n o ttl_s t u) = ltb_ℤ t e
is_foreign name owner e (releases n o) = not (str_eq n name && str_eq o owner)
is_foreign name owner e (renews n o ttl_s now) = not (str_eq n name && str_eq o owner)

abbrev pub all_foreign : String → String → ℤ → List LockCall → Bool
all_foreign name owner e [] = true
all_foreign name owner e (c ∷ cs) = is_foreign name owner e c && all_foreign name owner e cs

IsUnique-reject : (p : Lock → Bool) (locks : List Lock) → IsUnique locks → IsUnique (reject p locks)
IsUnique-reject p locks u name = omega (arith, count_if-select (named name) p locks, u name)

IsUnique-insert_or_ignore :
    (l : Lock) (locks : List Lock) → IsUnique locks → IsUnique (insert_or_ignore l locks)
IsUnique-insert_or_ignore l locks u name = elim (Bool-cases (str_eq l.name name)) [
  | inl e ↦
      let same : l.name ≡ name = (eq_iff l.name name).0 e in
      ground (
        arith,
        u name,
        e,
        ap (λ n. count_if (named n) locks) same,
        count_if-append (named name) locks (l ∷ []),
      )
  | inr e ↦ ground (arith, u name, e, count_if-append (named name) locks (l ∷ []))
]

pub lock_step-IsUnique :
    (c : LockCall) (locks : List Lock) → IsUnique locks → IsUnique (lock_step c locks)
unfolding lock_step lock_acquire lock_release lock_renew
lock_step-IsUnique (acquires name owner ttl_s t u) locks h n =
    IsUnique-insert_or_ignore _ _ (IsUnique-reject (is_stale name t) locks h) n
lock_step-IsUnique (releases name owner) locks h n = IsUnique-reject (owned name owner) locks h n
lock_step-IsUnique (renews name owner ttl_s now) locks h n = ground (
  arith,
  h n,
  count_if-update (named n) (owned name owner) (renewed (now +ℤ ttl_s)) (λ l. refl) locks,
)

-- Every history of lock calls keeps the names unique.
pub lock_run-IsUnique :
    (cs : List LockCall) (locks : List Lock) → IsUnique locks → IsUnique (lock_run locks cs)
unfolding lock_run
lock_run-IsUnique [] locks h = h
lock_run-IsUnique (c ∷ cs) locks h =
    lock_run-IsUnique cs (lock_step c locks) (lock_step-IsUnique c locks h)

distinct_owners : (x a b : String) → str_eq x a ≡ true → a ≢ b → str_eq x b ≡ false
distinct_owners x a b e d = ground (arith, eq_iff x a, eq_iff x b, d)

module _ {ℓ} {A : Type ℓ} (c p : A → Bool) (apart : (x : A) → c x ≡ true → p x ≡ false) where
  count-reject_apart : (xs : List A) → count_if c (reject p xs) ≡ count_if c xs
  count-reject_apart [] = refl
  count-reject_apart (x ∷ xs) = ground (arith, apart x, count-reject_apart xs)

  count-update_apart : (f : A → A) (xs : List A) → count_if c xs ≤ count_if c (update p f xs)
  count-update_apart f [] = omega arith
  count-update_apart f (x ∷ xs) = ground (arith, apart x, count-update_apart f xs)

insert_keeps :
    (c : Lock → Bool) (l : Lock) (locks : List Lock)
    → count_if c locks ≤ count_if c (insert_or_ignore l locks)
insert_keeps c l locks = ground (arith, count_if-append c locks (l ∷ []))

module _ (name a : String) (e : ℤ) where
  -- A foreign call leaves a lock that is held until `e` in place.
  pub held-lock_step :
      (c : LockCall) (locks : List Lock)
      → is_foreign name a e c ≡ true
      → count_if (is_held name a e) locks ≤ count_if (is_held name a e) (lock_step c locks)
  unfolding lock_step lock_acquire lock_release lock_renew
  held-lock_step (acquires n o ttl_s t u) locks h =
      let cleared = reject (is_stale n t) locks in
      omega (
        arith,
        insert_keeps (is_held name a e) (record { name = n; owner = o; expires_at = u +ℤ ttl_s })
            cleared,
        count-reject_apart (is_held name a e) (is_stale n t) (λ l k. ground arith) locks,
      )
  held-lock_step (releases n o) locks h =
      omega
        (arith, count-reject_apart (is_held name a e) (owned n o) (λ l k. owner_apart l k) locks)
    where
      owner_apart : (l : Lock) → is_held name a e l ≡ true → owned n o l ≡ false
      owner_apart l k = ground (
        arith,
        eq_iff l.owner a,
        eq_iff l.owner o,
        eq_iff o a,
        eq_iff l.name name,
        eq_iff l.name n,
        eq_iff n name,
      )
  held-lock_step (renews n o ttl_s now) locks h = ground (
    arith,
    count-update_apart (is_held name a e) (owned n o)
        (λ l k. ground (
          arith,
          eq_iff l.owner a,
          eq_iff l.owner o,
          eq_iff o a,
          eq_iff l.name name,
          eq_iff l.name n,
          eq_iff n name,
        ))
        (renewed (now +ℤ ttl_s)) locks,
  )

  pub held-lock_run :
      (cs : List LockCall) (locks : List Lock)
      → all_foreign name a e cs ≡ true
      → count_if (is_held name a e) locks ≤ count_if (is_held name a e) (lock_run locks cs)
  unfolding lock_run
  held-lock_run [] locks h = omega arith
  held-lock_run (c ∷ cs) locks h = omega (
    arith,
    held-lock_step c locks (ground arith),
    held-lock_run cs (lock_step c locks) (ground arith),
  )

  -- Before `e` nobody else acquires the lock.
  pub refuses :
      (b : String) (ttl_s t u : ℤ) (locks : List Lock)
      → IsUnique locks
      → 0 < count_if (is_held name a e) locks
      → a ≢ b
      → t <ℤ e
      → (lock_acquire name b ttl_s t u locks).0 ≡ ok 0
  unfolding lock_acquire
  refuses b ttl_s t u locks unique held d early =
      let cleared = reject (is_stale name t) locks in
      let after =
        insert_or_ignore (record { name = name; owner = b; expires_at = u +ℤ ttl_s }) cleared in
      let (l, found, mine) =
        find_unique (named name) (is_held name a e) (λ l k. ground arith) after
          (omega (
            arith,
            held,
            insert_keeps (is_held name a e)
                (record { name = name; owner = b; expires_at = u +ℤ ttl_s }) cleared,
            count-reject_apart (is_held name a e) (is_stale name t) (λ l k. ground arith) locks,
          ))
          (IsUnique-insert_or_ignore _ cleared (IsUnique-reject (is_stale name t) locks unique)
            name) in
      rw found (ground (arith, distinct_owners l.owner a b (ground arith) d))

-- A free lock is taken.
pub takes_free :
    (name a : String) (ttl_s t u : ℤ) (locks : List Lock)
    → count_if (λ l. named name l && ltb_ℤ t l.expires_at) locks ≡ 0
    → ((lock_acquire name a ttl_s t u locks).0 ≡ ok 1)
      × (0 < count_if (is_held name a (u +ℤ ttl_s)) (lock_acquire name a ttl_s t u locks).1)
unfolding lock_acquire
takes_free name a ttl_s t u locks free =
    let cleared = reject (is_stale name t) locks in
    let l : Lock = record { name = name; owner = a; expires_at = u +ℤ ttl_s } in
    let gone : count_if (named name) cleared ≡ 0 = none_left locks free in
    ground (
      arith,
      gone,
      eq_refl name,
      eq_refl a,
      find-append (named name) cleared (l ∷ []),
      find-none (named name) cleared gone,
      count_if-append (is_held name a (u +ℤ ttl_s)) cleared (l ∷ []),
    )
  where
    none_left :
        (xs : List Lock)
        → count_if (λ l. named name l && ltb_ℤ t l.expires_at) xs ≡ 0
        → count_if (named name) (reject (is_stale name t) xs) ≡ 0
    none_left [] h = refl
    none_left (x ∷ xs) h = ground (arith, none_left xs)

-- Where no name is locked twice, a lock that nobody holds goes to the worker who asks, and nobody
-- else gets it until it expires, whatever calls are made before that, as long as the holder does
-- not release or renew this lock; he may do so with others.
pub lock_acquire_excludes :
    (name a b : String) (ttl_s ttl_s' t u t' u' : ℤ) (cs : List LockCall) (locks : List Lock)
    → IsUnique locks
    → count_if (λ l. named name l && ltb_ℤ t l.expires_at) locks ≡ 0
    → a ≢ b
    → all_foreign name a (u +ℤ ttl_s) cs ≡ true
    → t' <ℤ u +ℤ ttl_s
    → ((lock_acquire name a ttl_s t u locks).0 ≡ ok 1)
      × ((lock_acquire name b ttl_s' t' u' (lock_run (lock_acquire name a ttl_s t u locks).1 cs)).0
          ≡ ok 0)
unfolding lock_step
lock_acquire_excludes name a b ttl_s ttl_s' t u t' u' cs locks unique free d foreign early =
    let e = u +ℤ ttl_s in
    let after = (lock_acquire name a ttl_s t u locks).1 in
    let (got, held) = takes_free name a ttl_s t u locks free in
    (
      got,
      refuses name a e b ttl_s' t' u' (lock_run after cs)
          (lock_run-IsUnique cs after (lock_step-IsUnique (acquires name a ttl_s t u) locks unique))
          (omega (arith, held, held-lock_run name a e cs after foreign)) d early,
    )
