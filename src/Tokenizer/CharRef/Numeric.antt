-- ===== src/Tokenizer/CharRef/Numeric.antt =====
-- Numeric character references: digits, and the character that a number stands for.
use Prim.Native.Nat.{bit_and}
use html.Prelude.{
  ℕ, ◌+◌, ◌-◌, Bool, true, false, ◌||◌, Option, none, some, List, [], ◌∷◌, ltb, ◌==◌, within,
  if◌then◌else◌, Checked, ok, panic, ◌>>=◌, expect, get_elem?,
}

unfoldable pub digit_below : ℕ → ℕ → Option ℕ
digit_below base d = if ltb d base then some d else none

-- `core::char::to_digit`.
unfoldable pub to_digit : ℕ → ℕ → Option ℕ
unfolding digit_below
to_digit c base =
    if within b'0' b'9' c
    then digit_below base (c - b'0')
    else if within b'a' b'z' c
    then digit_below base (c + 10 - b'a')
    else if within b'A' b'Z' c
    then digit_below base (c + 10 - b'A')
    else none

-- `core::char::from_u32`: the Unicode scalar values.
unfoldable pub from_u32 : ℕ → Option ℕ
from_u32 n = if ltb 0x10FFFF n || within 0xD800 0xDFFF n then none else some n

-- `C1_REPLACEMENTS` (src/tokenizer/char_ref/data.rs).
abbrev pub c1_replacements : List (Option ℕ)
c1_replacements =
    some 0x20AC
    ∷ none
    ∷ some 0x201A
    ∷ some 0x0192
    ∷ some 0x201E
    ∷ some 0x2026
    ∷ some 0x2020
    ∷ some 0x2021
    ∷ some 0x02C6
    ∷ some 0x2030
    ∷ some 0x0160
    ∷ some 0x2039
    ∷ some 0x0152
    ∷ none
    ∷ some 0x017D
    ∷ none
    ∷ none
    ∷ some 0x2018
    ∷ some 0x2019
    ∷ some 0x201C
    ∷ some 0x201D
    ∷ some 0x2022
    ∷ some 0x2013
    ∷ some 0x2014
    ∷ some 0x02DC
    ∷ some 0x2122
    ∷ some 0x0161
    ∷ some 0x203A
    ∷ some 0x0153
    ∷ none
    ∷ some 0x017E
    ∷ some 0x0178
    ∷ []

-- `conv`.
unfoldable pub conv : ℕ → Checked ℕ
unfolding from_u32
conv n = expect (from_u32 n)

unfoldable pub with_error : Bool → Checked ℕ → Checked (ℕ × Bool)
with_error error m = m >>= λ c. ok (c, error)

-- The arm of the control codes from 0x80; the index of a table of 32 entries.
unfoldable pub c1_value : ℕ → Option (Option ℕ) → Checked (ℕ × Bool)
unfolding conv with_error
c1_value n none = panic
c1_value n (some none) = with_error true (conv n)
c1_value n (some (some c)) = ok (c, true)

-- The match of `finish_numeric`: the character, and whether it is an error.
unfoldable pub finish_value : ℕ → Bool → Checked (ℕ × Bool)
unfolding conv with_error c1_value
finish_value n too_big =
    if ltb 0x10FFFF n || too_big
    then ok (0xFFFD, true)
    else if n == 0x00 || within 0xD800 0xDFFF n
    then ok (0xFFFD, true)
    else if within 0x80 0x9F n
    then c1_value n (get_elem? c1_replacements (n - 0x80))
    else if within 0x01 0x08 n
        || n == 0x0B
        || within 0x0D 0x1F n
        || n == 0x7F
        || within 0xFDD0 0xFDEF n
    then with_error true (conv n)
    else if bit_and n 0xFFFE == 0xFFFE
    then with_error true (conv n)
    else with_error false (conv n)
