-- ===== src/Examples/Cron.antt =====
-- Schedule expressions, read from concrete texts at concrete texts (honker-core/src/cron.rs).
use honker.Cron.Expr.{parse_expr, every, cron}
use honker.Action.{bad_schedule, ok, err}
use honker.Cron.Text.{split, codes, is_whitespace, trim_start, parse_u32}
use honker.Cron.Field.{parse_field, insert_into, Range, member}
use honker.Cron.Field.Meaning.{parse_field_lem, in_some}
use honker.Cron.Field.Grammar.{Reads}
use honker.Base.{ℕ, ◌<◌, ◌≡◌, refl, false, not, ◌&&◌, List, [], ◌∷◌, arith, leb, length}

ten_minutes : parse_expr (codes " @every 10m ") ≡ ok (every 600)
unfolding parse_expr is_whitespace trim_start
ten_minutes = refl

quarter_hours :
    parse_expr (codes "*/15 3 1,15 * 1-5")
    ≡ ok (
        cron (record {
          seconds = 0 ∷ [];
          minutes = 0 ∷ 15 ∷ 30 ∷ 45 ∷ [];
          hours = 3 ∷ [];
          days = 1 ∷ 15 ∷ [];
          months = 1 ∷ 2 ∷ 3 ∷ 4 ∷ 5 ∷ 6 ∷ 7 ∷ 8 ∷ 9 ∷ 10 ∷ 11 ∷ 12 ∷ [];
          dows = 1 ∷ 2 ∷ 3 ∷ 4 ∷ 5 ∷ [];
        }))
unfolding parse_expr is_whitespace trim_start insert_into parse_u32
quarter_hours = refl

seconds_refused : parse_expr (codes "60 * * * * *") ≡ err bad_schedule
unfolding parse_expr is_whitespace trim_start insert_into parse_u32
seconds_refused = refl

parse_field_example :
    (ranges : List Range) × Reads 0 59 (split (codes "1,10-20/5") b',') ranges
    × (member (1 ∷ 10 ∷ 15 ∷ 20 ∷ []) 15 ≡ in_some ranges 15)
    × ((member (1 ∷ 10 ∷ 15 ∷ 20 ∷ []) 15 && not (leb 0 15 && leb 15 59)) ≡ false)
    × (0 < length {A = ℕ} (1 ∷ 10 ∷ 15 ∷ 20 ∷ []))
unfolding parse_field insert_into parse_u32
parse_field_example =
    parse_field_lem (codes "1,10-20/5") 0 59 (1 ∷ 10 ∷ 15 ∷ 20 ∷ []) 15 (omega arith) refl
