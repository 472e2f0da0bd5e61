-- ===== src/Util/Str.antt =====
-- src/util/str.rs: ASCII classification and case mapping of characters.
pub mod Laws
pub mod Runs
use html.Prelude.{
  ℕ, ◌+◌, Bool, not, Text, true, false, ◌&&◌, ◌||◌, Option, none, some, List, [], ◌∷◌, ltb, leb,
  ◌==◌, if◌then◌else◌, get_elem?, length,
}
use html.Util.Utf8.{utf8_len, byte_len}
use mathlib.Core.List.{map}
use mathlib.Core.Option.{get_or}

abbrev pub ascii_lower_table : List ℕ
ascii_lower_table =
    0x00 ∷ 0x01 ∷ 0x02 ∷ 0x03 ∷ 0x04 ∷ 0x05 ∷ 0x06 ∷ 0x07 ∷ 0x08 ∷ 0x09 ∷ 0x0a ∷ 0x0b ∷ 0x0c ∷ 0x0d
    ∷ 0x0e ∷ 0x0f ∷ 0x10 ∷ 0x11 ∷ 0x12 ∷ 0x13 ∷ 0x14 ∷ 0x15 ∷ 0x16 ∷ 0x17 ∷ 0x18 ∷ 0x19 ∷ 0x1a
    ∷ 0x1b ∷ 0x1c ∷ 0x1d ∷ 0x1e ∷ 0x1f ∷ 0x20 ∷ 0x21 ∷ 0x22 ∷ 0x23 ∷ 0x24 ∷ 0x25 ∷ 0x26 ∷ 0x27
    ∷ 0x28 ∷ 0x29 ∷ 0x2a ∷ 0x2b ∷ 0x2c ∷ 0x2d ∷ 0x2e ∷ 0x2f ∷ 0x30 ∷ 0x31 ∷ 0x32 ∷ 0x33 ∷ 0x34
    ∷ 0x35 ∷ 0x36 ∷ 0x37 ∷ 0x38 ∷ 0x39 ∷ 0x3a ∷ 0x3b ∷ 0x3c ∷ 0x3d ∷ 0x3e ∷ 0x3f ∷ 0x40 ∷ 0x61
    ∷ 0x62 ∷ 0x63 ∷ 0x64 ∷ 0x65 ∷ 0x66 ∷ 0x67 ∷ 0x68 ∷ 0x69 ∷ 0x6a ∷ 0x6b ∷ 0x6c ∷ 0x6d ∷ 0x6e
    ∷ 0x6f ∷ 0x70 ∷ 0x71 ∷ 0x72 ∷ 0x73 ∷ 0x74 ∷ 0x75 ∷ 0x76 ∷ 0x77 ∷ 0x78 ∷ 0x79 ∷ 0x7a ∷ 0x5b
    ∷ 0x5c ∷ 0x5d ∷ 0x5e ∷ 0x5f ∷ 0x60 ∷ 0x61 ∷ 0x62 ∷ 0x63 ∷ 0x64 ∷ 0x65 ∷ 0x66 ∷ 0x67 ∷ 0x68
    ∷ 0x69 ∷ 0x6a ∷ 0x6b ∷ 0x6c ∷ 0x6d ∷ 0x6e ∷ 0x6f ∷ 0x70 ∷ 0x71 ∷ 0x72 ∷ 0x73 ∷ 0x74 ∷ 0x75
    ∷ 0x76 ∷ 0x77 ∷ 0x78 ∷ 0x79 ∷ 0x7a ∷ 0x7b ∷ 0x7c ∷ 0x7d ∷ 0x7e ∷ 0x7f ∷ 0x80 ∷ 0x81 ∷ 0x82
    ∷ 0x83 ∷ 0x84 ∷ 0x85 ∷ 0x86 ∷ 0x87 ∷ 0x88 ∷ 0x89 ∷ 0x8a ∷ 0x8b ∷ 0x8c ∷ 0x8d ∷ 0x8e ∷ 0x8f
    ∷ 0x90 ∷ 0x91 ∷ 0x92 ∷ 0x93 ∷ 0x94 ∷ 0x95 ∷ 0x96 ∷ 0x97 ∷ 0x98 ∷ 0x99 ∷ 0x9a ∷ 0x9b ∷ 0x9c
    ∷ 0x9d ∷ 0x9e ∷ 0x9f ∷ 0xa0 ∷ 0xa1 ∷ 0xa2 ∷ 0xa3 ∷ 0xa4 ∷ 0xa5 ∷ 0xa6 ∷ 0xa7 ∷ 0xa8 ∷ 0xa9
    ∷ 0xaa ∷ 0xab ∷ 0xac ∷ 0xad ∷ 0xae ∷ 0xaf ∷ 0xb0 ∷ 0xb1 ∷ 0xb2 ∷ 0xb3 ∷ 0xb4 ∷ 0xb5 ∷ 0xb6
    ∷ 0xb7 ∷ 0xb8 ∷ 0xb9 ∷ 0xba ∷ 0xbb ∷ 0xbc ∷ 0xbd ∷ 0xbe ∷ 0xbf ∷ 0xc0 ∷ 0xc1 ∷ 0xc2 ∷ 0xc3
    ∷ 0xc4 ∷ 0xc5 ∷ 0xc6 ∷ 0xc7 ∷ 0xc8 ∷ 0xc9 ∷ 0xca ∷ 0xcb ∷ 0xcc ∷ 0xcd ∷ 0xce ∷ 0xcf ∷ 0xd0
    ∷ 0xd1 ∷ 0xd2 ∷ 0xd3 ∷ 0xd4 ∷ 0xd5 ∷ 0xd6 ∷ 0xd7 ∷ 0xd8 ∷ 0xd9 ∷ 0xda ∷ 0xdb ∷ 0xdc ∷ 0xdd
    ∷ 0xde ∷ 0xdf ∷ 0xe0 ∷ 0xe1 ∷ 0xe2 ∷ 0xe3 ∷ 0xe4 ∷ 0xe5 ∷ 0xe6 ∷ 0xe7 ∷ 0xe8 ∷ 0xe9 ∷ 0xea
    ∷ 0xeb ∷ 0xec ∷ 0xed ∷ 0xee ∷ 0xef ∷ 0xf0 ∷ 0xf1 ∷ 0xf2 ∷ 0xf3 ∷ 0xf4 ∷ 0xf5 ∷ 0xf6 ∷ 0xf7
    ∷ 0xf8 ∷ 0xf9 ∷ 0xfa ∷ 0xfb ∷ 0xfc ∷ 0xfd ∷ 0xfe ∷ 0xff ∷ []

-- `ASCII_LOWER_MAP[n]`, for an index of type `u8`.
unfoldable pub ascii_lower_map : ℕ → ℕ
ascii_lower_map n = get_or (get_elem? ascii_lower_table n) 0

pub record Ascii : Type 0 where
  pub chr : ℕ

abbrev pub to_char : Ascii → ℕ
to_char a = a.chr

unfoldable pub is_alphabetic : Ascii → Bool
is_alphabetic a = (leb 0x41 a.chr && leb a.chr 0x5A) || (leb 0x61 a.chr && leb a.chr 0x7A)

unfoldable pub is_digit : Ascii → Bool
is_digit a = leb 0x30 a.chr && leb a.chr 0x39

unfoldable pub is_alphanumeric : Ascii → Bool
unfolding is_alphabetic is_digit
is_alphanumeric a = is_alphabetic a || is_digit a

unfoldable pub to_lowercase : Ascii → Ascii
to_lowercase a = record { chr = ascii_lower_map a.chr }

unfoldable pub eq_ignore_case : Ascii → Ascii → Bool
eq_ignore_case a b = ascii_lower_map a.chr == ascii_lower_map b.chr

-- `AsciiCast for char`.
unfoldable pub to_ascii_opt : ℕ → Option Ascii
to_ascii_opt n = if ltb n 0x80 then some (record { chr = n }) else none

-- `AsciiExt for &[u8]`.
unfoldable pub to_ascii_lower : List ℕ → List ℕ
to_ascii_lower = map ascii_lower_map

-- The test of `zip(...).all(...)`: it ends with the shorter list.
zip_all : List ℕ → List ℕ → Bool
zip_all (x ∷ xs) (y ∷ ys) = ascii_lower_map x == ascii_lower_map y && zip_all xs ys
zip_all _ _ = true

unfoldable pub eq_ignore_ascii_case : List ℕ → List ℕ → Bool
unfolding zip_all
eq_ignore_ascii_case xs ys = length xs == length ys && zip_all xs ys

unfoldable pub lower_ascii_letter : ℕ → Option ℕ
unfolding to_ascii_opt is_alphabetic to_lowercase
lower_ascii_letter c = elim (to_ascii_opt c) [
  | none ↦ none
  | some a ↦ if is_alphabetic a then some (to_char (to_lowercase a)) else none
]

unfoldable pub lower_ascii : ℕ → ℕ
unfolding lower_ascii_letter
lower_ascii c = get_or (lower_ascii_letter c) c

unfoldable pub is_ascii_alnum : ℕ → Bool
unfolding to_ascii_opt is_alphanumeric
is_ascii_alnum c = elim (to_ascii_opt c) [ none ↦ false | some a ↦ is_alphanumeric a ]

unfoldable pub is_ascii_whitespace : ℕ → Bool
is_ascii_whitespace c = c == b'\t' || c == b'\r' || c == b'\n' || c == 0x0C || c == b' '

unfoldable pub bool_eq : Bool → Bool → Bool
bool_eq true b = b
bool_eq false b = not b

-- The loop of `char_run`: where the predicate first changes, by byte position from `idx` on.
unfoldable pub change_at : (ℕ → Bool) → Bool → ℕ → Text → Option ℕ
unfolding bool_eq
change_at pred matches idx [] = none
change_at pred matches idx (ch ∷ rest) =
    let later = change_at pred matches (idx + utf8_len ch) rest in
    if bool_eq matches (pred ch) then later else some idx

unfoldable pub char_run : (ℕ → Bool) → Text → Option (ℕ × Bool)
unfolding change_at byte_len
char_run pred [] = none
char_run pred (first ∷ rest) = elim (change_at pred (pred first) 0 rest) [
  | none ↦ some (byte_len (first ∷ rest), pred first)
  | some idx ↦ some (idx + utf8_len first, pred first)
]
