-- ===== src/Action/Keeps.antt =====
-- What every run of an action, failing or not, does between the database before and the one after:
-- one rule for each way to build an action. `R` is an invariant's implication, or a conserved count.
use honker.Action.{in_savepoint, ok, Error, raise, Result, ◌>>=◌, Action, err, settle, resume, pure}
use honker.Base.{Bool, true, false, if◌then◌else◌}

pub record Preorder {ℓ} {S : Type ℓ} (R : S → S → Type 0) : Type ℓ where
  pub same : (s : S) → R s s
  pub trans : (s t u : S) → R s t → R t u → R s u

module _ {ℓ} {S : Type ℓ} (R : S → S → Type 0) where
  -- every run of `m` is within `R`
  pub record Keeps {A : Type ℓ} (m : Action S A) : Type ℓ where
    pub at : (s : S) → R s (m s).1

module _ {ℓ} {S A : Type ℓ} {R : S → S → Type 0} (o : Preorder R) where
  pub Keeps-pure : (a : A) → Keeps R (pure {S = S} a)
  Keeps-pure a = record { at = λ s. o.same s }

  pub Keeps-raise : (e : Error) → Keeps R (raise {S = S} {A = A} e)
  Keeps-raise e = record { at = λ s. o.same s }

  pub Keeps-if :
      (b : Bool) (m n : Action S A) → Keeps R m → Keeps R n → Keeps R (if b then m else n)
  Keeps-if true m n km kn = km
  Keeps-if false m n km kn = kn

  settle_keeps : (s t : S) (r : Result A) → R s t → R s (settle s r t).1
  settle_keeps s t (ok a) h = h
  settle_keeps s t (err e) h = o.same s

  pub Keeps-in_savepoint : (m : Action S A) → Keeps R m → Keeps R (in_savepoint m)
  unfolding in_savepoint
  Keeps-in_savepoint m k = record { at = λ s. settle_keeps s (m s).1 (m s).0 (k.at s) }

module _ {ℓ} {S A B : Type ℓ} {R : S → S → Type 0} (o : Preorder R) where
  resume_keeps :
      (s t : S) (r : Result A) (f : A → Action S B)
      → R s t
      → ((a : A) → Keeps R (f a))
      → R s (resume r f t).1
  resume_keeps s t (ok a) f h kf = o.trans s t (f a t).1 h ((kf a).at t)
  resume_keeps s t (err e) f h kf = h

  pub Keeps-bind :
      (m : Action S A) (f : A → Action S B)
      → Keeps R m
      → ((a : A) → Keeps R (f a))
      → Keeps R (m >>= f)
  Keeps-bind m f km kf = record { at = λ s. resume_keeps s (m s).1 (m s).0 f (km.at s) kf }
