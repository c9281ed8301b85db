-- ===== src/Action/Outcome.antt =====
-- What a successful or failed run of an action says of its parts.
use honker.Action.{resume, err, Error, in_savepoint, ◌>>=◌, Action, Result, ok, settle}
use honker.Base.{◌≡◌, refl, ◌⊎◌, inl, inr, arith, ap}

pub Result-cases {ℓ} :
    {A : Type ℓ} (r : Result A) → ((a : A) × (r ≡ ok a)) ⊎ ((e : Error) × (r ≡ err e))
Result-cases (ok a) = inl (a, refl)
Result-cases (err e) = inr (e, refl)

module _ {ℓ} {S A : Type ℓ} where
  settle_ok : (s t u : S) (r : Result A) (a : A) → settle s r t ≡ (ok a, u) → (r ≡ ok a) × (t ≡ u)
  settle_ok s t u (ok b) a h = ground arith
  settle_ok s t u (err e) a h = absurd (ground arith)

  settle_err : (s t u : S) (r : Result A) (e : Error) → settle s r t ≡ (err e, u) → u ≡ s
  settle_err s t u (ok b) e h = absurd (ground arith)
  settle_err s t u (err x) e h = ground arith

  -- A savepoint whose body succeeds keeps what the body did.
  pub in_savepoint_ok :
      (m : Action S A) (s t : S) (a : A)
      → in_savepoint m s ≡ (ok a, t)
      → ((m s).0 ≡ ok a) × ((m s).1 ≡ t)
  unfolding in_savepoint
  in_savepoint_ok m s t a h = settle_ok s (m s).1 t (m s).0 a h

  -- A savepoint that fails leaves the database as it was.
  pub in_savepoint_err :
      (m : Action S A) (s t : S) (e : Error) → in_savepoint m s ≡ (err e, t) → t ≡ s
  unfolding in_savepoint
  in_savepoint_err m s t e h = settle_err s (m s).1 t (m s).0 e h

module _ {ℓ} {S A B : Type ℓ} where
  resume_ok :
      (r : Result A) (f : A → Action S B) (s t : S) (b : B)
      → (resume r f s).0 ≡ ok b
      → (resume r f s).1 ≡ t
      → (a : A) × (r ≡ ok a) × ((f a s).0 ≡ ok b) × ((f a s).1 ≡ t)
  resume_ok (ok a) f s t b h k = (a, refl, h, k)
  resume_ok (err e) f s t b h k = absurd (ground arith)

  pub bind_ok :
      (m : Action S A) (f : A → Action S B) (s t : S) (b : B)
      → ((m >>= f) s).0 ≡ ok b
      → ((m >>= f) s).1 ≡ t
      → (a : A) × ((m s).0 ≡ ok a) × ((f a (m s).1).0 ≡ ok b) × ((f a (m s).1).1 ≡ t)
  bind_ok m f s t b h k = resume_ok (m s).0 f (m s).1 t b h k

  -- A bind goes on from where its first part succeeded.
  pub bind_after :
      (m : Action S A) (f : A → Action S B) (s : S) (a : A)
      → (m s).0 ≡ ok a
      → (m >>= f) s ≡ f a (m s).1
  bind_after m f s a h = ap (λ r. resume r f (m s).1) h

module _ {ℓ} {S A : Type ℓ} where
  pub in_savepoint_after :
      (m : Action S A) (s : S) (a : A) → (m s).0 ≡ ok a → in_savepoint m s ≡ (ok a, (m s).1)
  unfolding in_savepoint
  in_savepoint_after m s a h = ap (λ r. settle s r (m s).1) h

module _ {ℓ} {S A : Type ℓ} where
  pub run_eq : {x : Result A × S} {r : Result A} {s : S} → x.0 ≡ r → x.1 ≡ s → x ≡ (r, s)
  run_eq p q = λ i. (p i, q i)
