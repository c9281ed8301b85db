-- ===== src/Sql/Numbers.antt =====
-- Numbers that a client passes as REAL (honker-core/src/honker_ops.rs, `arg_i64`).
use mathlib.Core.Path.{fun_ext}
use honker.Base.{
  ℕ, zero, suc, String, ◌≡◌, refl, sym, ap, ◌∙◌, Option, none, some, List, [], ◌∷◌, map,
  if◌then◌else◌, length, Bool, true, false,
}
use honker.Action.{Result}
use honker.Sql.{
  blob, not_a_number, null, text, real_to_i64, context, Value, fractional, arg_opt_i64, arg_i64,
  infinite, real, Database, integer, whole, IsFromSql, FromSql,
}
use honker.Queue.Finish.{AckItem}
use honker.Base.Int.{in_i64, ℤ}
use honker.Sql.Registry.{Registration, is_function, nth, call, apply, attach_honker_functions}
use honker.Table.Upsert.{find}

-- A whole number that an INTEGER can hold, as an INTEGER.
abbrev pub as_integer : Value → Value
as_integer (real (whole z)) = if in_i64 z then integer z else real (whole z)
as_integer v = v

module _ (g : FromSql) where
  abbrev Same : Value → Value → Type 0
  Same v w =
      (arg_i64 g v ≡ arg_i64 g w)
      × (arg_opt_i64 g v ≡ arg_opt_i64 g w)
      × (g.get_string v ≡ g.get_string w)
      × (g.get_opt_string v ≡ g.get_opt_string w)

module _ (g : FromSql) (h : IsFromSql g) where
  whole-Same :
      (z : ℤ) (b : Bool)
      → in_i64 z ≡ b
      → Same g (if b then integer z else real (whole z)) (real (whole z))
  unfolding arg_i64 arg_opt_i64 real_to_i64
  whole-Same z true e = rw e (h.i64 z, h.opt_i64 z, h.string z (whole z), h.opt_string z (whole z))
  whole-Same z false e = (refl, refl, refl, refl)

  as_integer-Same : (v : Value) → Same g (as_integer v) v
  as_integer-Same null = (refl, refl, refl, refl)
  as_integer-Same (integer z) = (refl, refl, refl, refl)
  as_integer-Same (real (whole z)) = whole-Same z (in_i64 z) refl
  as_integer-Same (real fractional) = (refl, refl, refl, refl)
  as_integer-Same (real infinite) = (refl, refl, refl, refl)
  as_integer-Same (real not_a_number) = (refl, refl, refl, refl)
  as_integer-Same (text s) = (refl, refl, refl, refl)
  as_integer-Same blob = (refl, refl, refl, refl)

  context-as_integer : (args : ℕ → Value) → context g (λ i. as_integer (args i)) ≡ context g args
  unfolding context
  context-as_integer args = λ j. record {
    i64 = λ i. (as_integer-Same (args i)).0 j;
    opt_i64 = λ i. (as_integer-Same (args i)).1 j;
    get_text = λ i. (as_integer-Same (args i)).2 j;
    opt_text = λ i. (as_integer-Same (args i)).3 j;
  }

nth-map :
    (f : Value → Value)
    → f null ≡ null
    → (vs : List Value) (i : ℕ) → nth (map f vs) i ≡ f (nth vs i)
nth-map f h [] i = sym h
nth-map f h (v ∷ vs) zero = refl
nth-map f h (v ∷ vs) (suc i) = nth-map f h vs i

length-map : (f : Value → Value) (vs : List Value) → length (map f vs) ≡ length vs
length-map f [] = refl
length-map f (v ∷ vs) = ap suc (length-map f vs)

module _ (next_after : String → ℤ → Result ℤ) (ack_items : String → Result (List AckItem))
    (g : FromSql) (h : IsFromSql g) where
  apply-as_integer :
      (o : Option Registration) (args : List Value) (t : ℕ → ℤ) (db : Database)
      → apply next_after ack_items g o (map as_integer args) t db
        ≡ apply next_after ack_items g o args t db
  apply-as_integer none args t db = refl
  apply-as_integer (some f) args t db =
      ap (λ c. f.body c t db)
        (ap (context g) (fun_ext (nth-map as_integer refl args))
          ∙ context-as_integer g h (nth args))

  -- A client may pass its numbers as REAL: a call of any function returns the same and does the same to
  -- the database when each REAL argument that is a whole number in the range of an INTEGER is passed as
  -- that INTEGER. Of rusqlite it is assumed that it reads an INTEGER as it is, and a string from no
  -- number.
  pub call-as_integer :
      (name : String) (args : List Value) (t : ℕ → ℤ) (db : Database)
      → call next_after ack_items g name (map as_integer args) t db
        ≡ call next_after ack_items g name args t db
  unfolding call
  call-as_integer name args t db = rw (length-map as_integer args) (
      apply-as_integer
        (find (is_function name (length args)) (attach_honker_functions next_after ack_items)) args
        t db)
