-- ===== src/Cron/Text.antt =====
-- The operations of Rust's `str` that honker-core/src/cron.rs uses, on a text as the list of its code
-- points.
use Prim.Native.Char.{code}
use honker.Base.{
  ℕ, ◌+◌, ◌-◌, ◌*◌, ◌^◌, String, Bool, true, false, not, ◌&&◌, ◌||◌, Option, none, some, List, [],
  ◌∷◌, ◌++◌, reverse, ◌==◌, ltb, if◌then◌else◌, leb,
}

abbrev pub codes : String → List ℕ
codes String.[] = []
codes (String.◌∷◌ c s) = code c ∷ codes s

abbrev is_between : ℕ → ℕ → ℕ → Bool
is_between lo hi c = leb lo c && leb c hi

-- `char::is_whitespace`: the code points with the property White_Space.
unfoldable pub is_whitespace : ℕ → Bool
is_whitespace c =
    is_between 9 13 c
    || c == 0x20
    || c == 0x85
    || c == 0xA0
    || c == 0x1680
    || is_between 0x2000 0x200A c
    || c == 0x2028
    || c == 0x2029
    || c == 0x202F
    || c == 0x205F
    || c == 0x3000

abbrev pub is_ascii_digit : ℕ → Bool
is_ascii_digit c = leb b'0' c && leb c b'9'

unfoldable pub trim_start : List ℕ → List ℕ
trim_start [] = []
trim_start (c ∷ s) = let rest = trim_start s in if is_whitespace c then rest else c ∷ s

unfoldable pub trim : List ℕ → List ℕ
trim s = reverse (trim_start (reverse (trim_start s)))

-- A word is put before the rest, unless it is empty.
abbrev pub put_word : List ℕ → List (List ℕ) → List (List ℕ)
put_word [] rest = rest
put_word (c ∷ cs) rest = (c ∷ cs) ∷ rest

unfoldable pub words_from : List ℕ → List ℕ → List (List ℕ)
words_from cur [] = put_word cur []
words_from cur (c ∷ s) = elim (is_whitespace c) [
  | true ↦ put_word cur (words_from [] s)
  | false ↦ words_from (cur ++ c ∷ []) s
]

unfoldable pub split_whitespace : List ℕ → List (List ℕ)
unfolding words_from
split_whitespace s = words_from [] s

unfoldable pub split_from : ℕ → List ℕ → List ℕ → List (List ℕ)
split_from sep cur [] = cur ∷ []
split_from sep cur (c ∷ s) = elim (c == sep) [
  | true ↦ cur ∷ split_from sep [] s
  | false ↦ split_from sep (cur ++ c ∷ []) s
]

-- `split`: there is always one part at least.
unfoldable pub split : List ℕ → ℕ → List (List ℕ)
unfolding split_from
split s sep = split_from sep [] s

unfoldable pub once_from : ℕ → List ℕ → List ℕ → Option (List ℕ × List ℕ)
once_from sep cur [] = none
once_from sep cur (c ∷ s) = elim (c == sep) [
  | true ↦ some (cur, s)
  | false ↦ once_from sep (cur ++ c ∷ []) s
]

-- The text before the first `sep` and the text after it.
unfoldable pub split_once : List ℕ → ℕ → Option (List ℕ × List ℕ)
unfolding once_from
split_once s sep = once_from sep [] s

-- `strip_prefix`
unfoldable pub strip_prefix : List ℕ → List ℕ → Option (List ℕ)
strip_prefix s [] = some s
strip_prefix [] (p ∷ ps) = none
strip_prefix (c ∷ s) (p ∷ ps) = let rest = strip_prefix s ps in if c == p then rest else none

-- The digits of a number of at most `bound`, behind the value `n` of those before.
unfoldable pub digits_from : ℕ → ℕ → List ℕ → Option ℕ
digits_from bound n [] = some n
digits_from bound n (c ∷ s) =
    let m = n * 10 + (c - b'0') in
    let rest = digits_from bound m s in
    if not (is_ascii_digit c) then none else if ltb bound m then none else rest

unfoldable pub unsigned : ℕ → List ℕ → Option ℕ
unfolding digits_from
unsigned bound [] = none
unsigned bound (c ∷ s) = digits_from bound 0 (c ∷ s)

-- `parse::<u32>`: one `+` may stand before the digits.
unfoldable pub parse_u32 : List ℕ → Option ℕ
unfolding unsigned
parse_u32 [] = none
parse_u32 (c ∷ s) = unsigned (2 ^ 32 - 1) (if c == b'+' then s else c ∷ s)
