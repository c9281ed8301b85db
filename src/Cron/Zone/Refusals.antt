-- ===== src/Cron/Zone/Refusals.antt =====
-- The errors of the parser of schedule expressions (honker-core/src/cron.rs).
use honker.Cron.Expr.{
  parse_expr, five_fields, parse_words, parse_cron, parse_every_interval, expr_of, unit_seconds,
  drop_digits, take_digits,
}
use honker.Action.{ok, err, bad_schedule, Result}
use honker.Cron.Field.{
  ◌>>=◌, positive, bounds_of, parse_parts, range_and_step, add_range, parse_field, parse_part,
  or_bad, ends_of, with_step, is_star,
}
use honker.Base.Int.{i64_max}
use honker.Cron.Text.{
  unsigned, strip_prefix, parse_u32, trim, split, split_once, codes, split_whitespace,
}
use honker.Base.{
  ℕ, ◌*◌, ◌≡◌, refl, Bool, true, false, ◌||◌, Option, none, some, List, [], ◌∷◌, ◌==◌, ltb,
  if◌then◌else◌,
}

-- A failure is the refusal of the expression.
abbrev pub OnlyBad {ℓ} : {A : Type ℓ} → Result A → Type 0
OnlyBad (ok a) = Unit
OnlyBad (err e) = e ≡ bad_schedule

bind_bad {ℓ κ} :
    {A : Type ℓ} {B : Type κ} (m : Result A) (f : A → Result B)
    → OnlyBad m
    → ((a : A) → OnlyBad (f a))
    → OnlyBad (m >>= f)
bind_bad (ok a) f h k = k a
bind_bad (err e) f h k = h

or_bad_bad {ℓ} : {A : Type ℓ} (o : Option A) → OnlyBad (or_bad o)
or_bad_bad none = refl
or_bad_bad (some a) = tt

if_bad {ℓ} :
    {A : Type ℓ} (b : Bool) (x y : Result A) → OnlyBad x → OnlyBad y → OnlyBad (if b then x else y)
if_bad true x y h k = h
if_bad false x y h k = k

positive_bad : (n : ℕ) → OnlyBad (positive n)
positive_bad n = if_bad (n == 0) _ _ refl tt

with_step_bad : (part : List ℕ) (o : Option (List ℕ × List ℕ)) → OnlyBad (with_step part o)
with_step_bad part none = tt
with_step_bad part (some (r, s)) =
    bind_bad _ _ (or_bad_bad (parse_u32 s)) (λ n. bind_bad _ _ (positive_bad n) (λ step. tt))

ends_of_bad : (range : List ℕ) (o : Option (List ℕ × List ℕ)) → OnlyBad (ends_of range o)
ends_of_bad range none = bind_bad _ _ (or_bad_bad (parse_u32 range)) (λ v. tt)
ends_of_bad range (some (a, b)) =
    bind_bad _ _ (or_bad_bad (parse_u32 a)) (λ x. bind_bad _ _ (or_bad_bad (parse_u32 b)) (λ y. tt))

parse_part_bad : (lo hi : ℕ) (part : List ℕ) → OnlyBad (parse_part lo hi part)
unfolding parse_part range_and_step bounds_of
parse_part_bad lo hi part = bind_bad _ _ (with_step_bad part (split_once part b'/')) (λ q.
    bind_bad _ _ (if_bad (is_star q.0) _ _ tt (ends_of_bad q.0 (split_once q.0 b'-')))
      (λ b. if_bad (ltb b.0 lo || ltb hi b.1 || ltb b.1 b.0) _ _ refl tt))

parse_parts_bad :
    (lo hi : ℕ) (parts : List (List ℕ)) (out : List ℕ) → OnlyBad (parse_parts lo hi parts out)
unfolding parse_parts
parse_parts_bad lo hi [] out = tt
parse_parts_bad lo hi (p ∷ ps) out =
    bind_bad _ _ (parse_part_bad lo hi p) (λ r. parse_parts_bad lo hi ps (add_range r out))

parse_field_bad : (field : List ℕ) (lo hi : ℕ) → OnlyBad (parse_field field lo hi)
unfolding parse_field
parse_field_bad field lo hi = parse_parts_bad lo hi (split field b',') []

five_fields_bad : (s a b c d e : List ℕ) → OnlyBad (five_fields s a b c d e)
unfolding five_fields
five_fields_bad s a b c d e = bind_bad _ _ (parse_field_bad a 0 59) (λ _.
    bind_bad _ _ (parse_field_bad b 0 23) (λ _. bind_bad _ _ (parse_field_bad c 1 31) (λ _.
      bind_bad _ _ (parse_field_bad d 1 12) (λ _. bind_bad _ _ (parse_field_bad e 0 6) (λ _. tt)))))

parse_words_bad : (words : List (List ℕ)) → OnlyBad (parse_words words)
parse_words_bad [] = refl
parse_words_bad (a ∷ []) = refl
parse_words_bad (a ∷ b ∷ []) = refl
parse_words_bad (a ∷ b ∷ c ∷ []) = refl
parse_words_bad (a ∷ b ∷ c ∷ d ∷ []) = refl
parse_words_bad (a ∷ b ∷ c ∷ d ∷ e ∷ []) = five_fields_bad (0 ∷ []) a b c d e
parse_words_bad (s ∷ a ∷ b ∷ c ∷ d ∷ e ∷ []) =
    bind_bad _ _ (parse_field_bad s 0 59) (λ x. five_fields_bad x a b c d e)
parse_words_bad (s ∷ a ∷ b ∷ c ∷ d ∷ e ∷ f ∷ r) = refl

unit_seconds_bad : (text : List ℕ) → OnlyBad (unit_seconds text)
unit_seconds_bad [] = refl
unit_seconds_bad (c ∷ []) =
    if_bad (c == b's') _ _ tt
      (if_bad (c == b'm') _ _ tt (if_bad (c == b'h') _ _ tt (if_bad (c == b'd') _ _ tt refl)))
unit_seconds_bad (c ∷ d ∷ r) = refl

parse_every_interval_bad : (body : List ℕ) → OnlyBad (parse_every_interval body)
unfolding parse_every_interval
parse_every_interval_bad body =
    bind_bad _ _ (or_bad_bad (unsigned i64_max (take_digits body))) (λ n.
      bind_bad _ _ (positive_bad n) (λ count.
        bind_bad _ _ (unit_seconds_bad (drop_digits body))
          (λ mult. if_bad (ltb i64_max (count * mult)) _ _ refl tt)))

expr_of_bad : (text : List ℕ) (o : Option (List ℕ)) → OnlyBad (expr_of text o)
unfolding parse_cron
expr_of_bad text none = bind_bad _ _ (parse_words_bad (split_whitespace text)) (λ s. tt)
expr_of_bad text (some rest) = bind_bad _ _ (parse_every_interval_bad (trim rest)) (λ n. tt)

pub parse_expr-OnlyBad : (expr : List ℕ) → OnlyBad (parse_expr expr)
unfolding parse_expr
parse_expr-OnlyBad expr = expr_of_bad (trim expr) (strip_prefix (trim expr) (codes "@every"))
