-- ===== src/Util/Utf8.antt =====
-- The string operations of the Rust core library that the tokenizer uses. A string is its
-- sequence of scalar values; positions are byte positions in its UTF-8 encoding, and a position
-- that is out of range or inside an encoded character makes the operation panic.
use html.Prelude.{
  ℕ, ◌+◌, ◌-◌, ◌/◌, ◌%◌, ◌<◌, ◌≡◌, ◌≢◌, refl, List, [], ◌∷◌, ◌++◌, arith, ltb, ◌==◌, if◌then◌else◌,
  Text, Checked, ok, panic, ◌>>=◌, sym, append_assoc, ◌∙◌,
}

-- `char::len_utf8`.
abbrev pub utf8_len : ℕ → ℕ
utf8_len c = if ltb c 0x80 then 1 else if ltb c 0x800 then 2 else if ltb c 0x10000 then 3 else 4

-- `char::encode_utf8`.
unfoldable pub encode_utf8 : ℕ → List ℕ
encode_utf8 c =
    if ltb c 0x80
    then c ∷ []
    else if ltb c 0x800
    then (0xC0 + c / 64) ∷ (0x80 + c % 64) ∷ []
    else if ltb c 0x10000
    then (0xE0 + c / 4096) ∷ (0x80 + c / 64 % 64) ∷ (0x80 + c % 64) ∷ []
    else (0xF0 + c / 262144) ∷ (0x80 + c / 4096 % 64) ∷ (0x80 + c / 64 % 64) ∷ (0x80 + c % 64) ∷ []

-- `str::len`, in bytes.
unfoldable pub byte_len : Text → ℕ
byte_len [] = 0
byte_len (c ∷ s) = utf8_len c + byte_len s

-- `str::bytes`.
unfoldable pub bytes : Text → List ℕ
unfolding encode_utf8
bytes [] = []
bytes (c ∷ s) = encode_utf8 c ++ bytes s

-- `str::slice_from`.
unfoldable pub slice_from : Text → ℕ → Checked Text
slice_from [] pos = if pos == 0 then ok [] else panic
slice_from (c ∷ s) pos =
    let rest = slice_from s (pos - utf8_len c) in
    if pos == 0 then ok (c ∷ s) else if ltb pos (utf8_len c) then panic else rest

-- `str::slice_to`.
unfoldable pub slice_to : Text → ℕ → Checked Text
slice_to [] pos = if pos == 0 then ok [] else panic
slice_to (c ∷ s) pos =
    let rest = slice_to s (pos - utf8_len c) in
    if pos == 0 then ok [] else if ltb pos (utf8_len c) then panic else (rest >>= λ r. ok (c ∷ r))

-- `str::slice`.
unfoldable pub slice : Text → ℕ → ℕ → Checked Text
unfolding slice_from slice_to
slice s from to = do r ← slice_from s from; if ltb to from then panic else slice_to r (to - from)

first_char : Text → Checked ℕ
first_char [] = panic
first_char (c ∷ s) = ok c

-- `str::char_at`.
unfoldable pub char_at : Text → ℕ → Checked ℕ
unfolding slice_from first_char
char_at s pos = do r ← slice_from s pos; first_char r

-- `str::char_range_at`: the character and the position behind it.
unfoldable pub char_range_at : Text → ℕ → Checked (ℕ × ℕ)
unfolding char_at
char_range_at s pos = do c ← char_at s pos; ok (c, pos + utf8_len c)

pub utf8_len_pos : (c : ℕ) → 0 < utf8_len c
utf8_len_pos c = ground arith

pub byte_len-append : (s t : Text) → byte_len (s ++ t) ≡ byte_len s + byte_len t
unfolding byte_len
byte_len-append [] t = omega arith
byte_len-append (c ∷ s) t = omega (arith, byte_len-append s t)

pub byte_len-eq-zero : (s : Text) → byte_len s ≡ 0 → s ≡ []
unfolding byte_len
byte_len-eq-zero [] h = refl
byte_len-eq-zero (c ∷ s) h = absurd (omega (arith, utf8_len_pos c))

pub byte_len-pos : (s : Text) → s ≢ [] → 0 < byte_len s
unfolding byte_len
byte_len-pos [] h = absurd (h refl)
byte_len-pos (c ∷ s) h = omega (arith, utf8_len_pos c)

-- Slicing at the end of a prefix gives the prefix and what follows it.
pub slice_from-append : (s t : Text) → slice_from (s ++ t) (byte_len s) ≡ ok t
unfolding slice_from byte_len
slice_from-append [] [] = refl
slice_from-append [] (c ∷ t) = refl
slice_from-append (c ∷ s) t =
    let e : utf8_len c + byte_len s - utf8_len c ≡ byte_len s = omega arith in
    ground (arith, e, slice_from-append s t, utf8_len_pos c)

pub slice_to-append : (s t : Text) → slice_to (s ++ t) (byte_len s) ≡ ok s
unfolding slice_to byte_len
slice_to-append [] [] = refl
slice_to-append [] (c ∷ t) = refl
slice_to-append (c ∷ s) t =
    let e : utf8_len c + byte_len s - utf8_len c ≡ byte_len s = omega arith in
    ground (arith, e, slice_to-append s t, utf8_len_pos c)

-- `pos` is the byte position of a split of `s` whose second part is `t`.
pub record SplitAt (s : Text) (pos : ℕ) (t : Text) : Type 0 where
  pub before : Text
  pub splits : s ≡ before ++ t
  pub position : pos ≡ byte_len before

module _ {s t : Text} {pos : ℕ} (at : SplitAt s pos t) where
  pub slice_from-SplitAt : slice_from s pos ≡ ok t
  slice_from-SplitAt = rw (at.splits, at.position) (slice_from-append at.before t)

  pub byte_len-SplitAt : byte_len s ≡ pos + byte_len t
  byte_len-SplitAt = rw (at.splits, at.position) (byte_len-append at.before t)

pub slice-SplitAt :
    {s : Text} {pos : ℕ} (t u : Text)
    → SplitAt s pos (t ++ u)
    → slice s pos (pos + byte_len t) ≡ ok t
unfolding slice
slice-SplitAt {s} {pos} t u at =
    let e : pos + byte_len t - pos ≡ byte_len t = omega arith in
    rw (slice_from-SplitAt at) (rw e (ground (arith, slice_to-append t u)))

pub char_at-SplitAt : {s t : Text} {pos : ℕ} (c : ℕ) → SplitAt s pos (c ∷ t) → char_at s pos ≡ ok c
unfolding char_at first_char
char_at-SplitAt c at = rw (slice_from-SplitAt at)

pub char_range_at-SplitAt :
    {s t : Text} {pos : ℕ} (c : ℕ)
    → SplitAt s pos (c ∷ t)
    → char_range_at s pos ≡ ok (c, pos + utf8_len c)
unfolding char_range_at
char_range_at-SplitAt c at = rw (char_at-SplitAt c at)

-- The position moves on over a read prefix.
pub SplitAt-advance :
    {s : Text} {pos : ℕ} (t u : Text) → SplitAt s pos (t ++ u) → SplitAt s (pos + byte_len t) u
SplitAt-advance t u at = record {
  before = at.before ++ t;
  splits = at.splits ∙ sym (append_assoc at.before t u);
  position = omega (arith, at.position, byte_len-append at.before t);
}

pub SplitAt-start : (s : Text) → SplitAt s 0 s
unfolding byte_len
SplitAt-start s = record { before = []; splits = refl; position = refl }
