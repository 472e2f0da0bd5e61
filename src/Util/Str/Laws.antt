-- ===== src/Util/Str/Laws.antt =====
-- What the ASCII helpers of src/util/str.rs compute.
use mathlib.Core.List.{map, map-append}
use html.Prelude.{
  ℕ, ◌+◌, ◌/◌, ◌%◌, ◌≤◌, ◌<◌, ◌≡◌, ◌↔◌, refl, true, false, ◌&&◌, ◌||◌, none, some, List, [], ◌∷◌,
  arith, ltb, ◌==◌, ==_iff, within, if◌then◌else◌, Text, All, length, tests, Bool-cases, inl, inr,
}
use html.Prelude.{every, every_sound}
use html.Util.Utf8.{bytes, encode_utf8}
use html.Util.Str.{
  ascii_lower_map, to_ascii_lower, eq_ignore_ascii_case, zip_all, lower_ascii_letter, lower_ascii,
  is_ascii_alnum,
}

-- ASCII lowercase, by range tests.
abbrev pub lower : ℕ → ℕ
lower c = if within 0x41 0x5A c then c + 32 else c

lower_table : every 256 (λ x. ascii_lower_map x == lower x) ≡ true
unfolding every ascii_lower_map
lower_table = refl

-- The table agrees with the range test at every byte.
pub ascii_lower_map-eq-lower : (x : ℕ) → x < 256 → ascii_lower_map x ≡ lower x
ascii_lower_map-eq-lower x h = (==_iff _ _).0 (every_sound 256 _ x lower_table h)

-- lower_ascii_letter answers an ASCII letter with its lowercase form and nothing else.
pub lower_ascii_letter-eq :
    (c : ℕ)
    → lower_ascii_letter c
      ≡ (if within 0x41 0x5A c then some (c + 32) else if within 0x61 0x7A c then some c else none)
unfolding lower_ascii_letter
lower_ascii_letter-eq c = elim (Bool-cases (ltb c 256)) [
  | inl small ↦ ground (arith, ascii_lower_map-eq-lower c (omega tests))
  | inr big ↦ ground arith
]

pub lower_ascii-eq-lower : (c : ℕ) → lower_ascii c ≡ lower c
unfolding lower_ascii
lower_ascii-eq-lower c = ground (arith, lower_ascii_letter-eq c)

-- ASCII letters and digits.
pub is_ascii_alnum-eq :
    (c : ℕ) → is_ascii_alnum c ≡ (within 0x41 0x5A c || within 0x61 0x7A c || within 0x30 0x39 c)
unfolding is_ascii_alnum
is_ascii_alnum-eq c = ground arith

zip_all_iff :
    (xs ys : List ℕ)
    → ((length xs == length ys && zip_all xs ys) ≡ true)
      ↔ (map ascii_lower_map xs ≡ map ascii_lower_map ys)
unfolding zip_all
zip_all_iff (x ∷ xs) (y ∷ ys) =
    let ih = zip_all_iff xs ys in (λ h. ground (arith, ih.0), λ h. ground (arith, ih.1))
zip_all_iff [] [] = (λ h. refl, λ h. refl)
zip_all_iff [] (y ∷ ys) = (λ h. ground arith, λ h. ground arith)
zip_all_iff (x ∷ xs) [] = (λ h. ground arith, λ h. ground arith)

-- Two byte strings are equal up to ASCII case exactly when their lowercase forms are equal.
pub eq_ignore_ascii_case_iff :
    (xs ys : List ℕ) → (eq_ignore_ascii_case xs ys ≡ true) ↔ (to_ascii_lower xs ≡ to_ascii_lower ys)
unfolding eq_ignore_ascii_case to_ascii_lower
eq_ignore_ascii_case_iff xs ys = zip_all_iff xs ys

-- The table maps every byte of a longer encoding to itself.
lower_high : (b : ℕ) → 128 ≤ b → b < 256 → ascii_lower_map b ≡ b
lower_high b h k = ground (arith, ascii_lower_map-eq-lower b)

lower_ascii-high : (c : ℕ) → ltb c 0x80 ≡ false → lower_ascii c ≡ c
lower_ascii-high c h = ground (arith, lower_ascii-eq-lower c)

lower-encode_utf8_high :
    (c : ℕ) → c < 0x110000 → ltb c 0x80 ≡ false → to_ascii_lower (encode_utf8 c) ≡ encode_utf8 c
unfolding to_ascii_lower encode_utf8
lower-encode_utf8_high c h k = ground (
  arith,
  lower_high (0xC0 + c / 64),
  lower_high (0xE0 + c / 4096),
  lower_high (0xF0 + c / 262144),
  lower_high (0x80 + c % 64),
  lower_high (0x80 + c / 64 % 64),
  lower_high (0x80 + c / 4096 % 64),
)

lower-encode_utf8_low :
    (c : ℕ) → ltb c 0x80 ≡ true → to_ascii_lower (encode_utf8 c) ≡ encode_utf8 (lower_ascii c)
unfolding to_ascii_lower encode_utf8
lower-encode_utf8_low c k =
    ground (arith, ascii_lower_map-eq-lower c (omega tests), lower_ascii-eq-lower c)

to_ascii_lower-encode_utf8 :
    (c : ℕ) → c < 0x110000 → to_ascii_lower (encode_utf8 c) ≡ encode_utf8 (lower_ascii c)
to_ascii_lower-encode_utf8 c h = elim (Bool-cases (ltb c 0x80)) [
  | inl low ↦ lower-encode_utf8_low c low
  | inr high ↦ rw (lower_ascii-high c high) (lower-encode_utf8_high c h high)
]

-- For characters below 0x110000, lowering the bytes of a string by the table gives the bytes of
-- the string with its characters lowered, so that they stay the UTF-8 encoding of a string.
pub to_ascii_lower-bytes :
    (s : Text) → All (λ c. c < 0x110000) s → to_ascii_lower (bytes s) ≡ bytes (map lower_ascii s)
unfolding bytes to_ascii_lower
to_ascii_lower-bytes [] h = refl
to_ascii_lower-bytes (c ∷ s) h =
    rw map-append (cc (to_ascii_lower-encode_utf8 c h.0, to_ascii_lower-bytes s h.1))
