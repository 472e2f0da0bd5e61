-- ===== src/Util/SmallCharSet/Laws.antt =====
-- The bit sets are sets: membership, and the length of a run of characters outside a set.
use native.Mathlib.Nat.{mod-eq_of_lt, pow-le-pow_right}
use html.Prelude.{
  ℕ, ◌+◌, ◌^◌, ◌<◌, ◌≤◌, ◌≡◌, refl, ap, false, List, [], ◌∷◌, ◌++◌, ltb, if◌then◌else◌, Text, All,
  contains, arith, tests, Bool-cases, inl, inr,
}
use html.Prelude.Bits.{test_bit, bit_and-pow, test_bit-bit_or, test_bit-zero, test_bit-pow, pow_pos}
use html.Util.Utf8.{bytes, encode_utf8, byte_len, utf8_len}
use html.Util.SmallCharSet.{
  shl_one, member, nonmember_bytes, nonmember_prefix_len, union_bits, small_char_set,
}

abbrev pub AllSmall : List ℕ → Type 0
AllSmall es = All (λ e. e < 64) es

shl_one-small : (n : ℕ) → n < 64 → shl_one n ≡ 2 ^ n
shl_one-small n h =
    let bound : 2 ^ n ≤ 2 ^ 63 =
      pow-le-pow_right {n = 2} (omega arith) {i = n} {j = 63} (omega arith) in
    mod-eq_of_lt (omega arith)

test_bit-union :
    (es : List ℕ) (n : ℕ)
    → AllSmall es
    → test_bit n (union_bits es) ≡ (if contains es n then 1 else 0)
test_bit-union [] n h = test_bit-zero n
test_bit-union (e ∷ es) n h = ground (
  arith,
  test_bit-bit_or n (shl_one e) (union_bits es),
  ap (test_bit n) (shl_one-small e h.0),
  test_bit-pow n e,
  test_bit-union es n h.1,
)

-- A set built by small_char_set! from characters below 64 has, among the numbers below 64,
-- exactly the listed members.
pub member-small_char_set :
    (es : List ℕ) (n : ℕ) → AllSmall es → n < 64 → member (small_char_set es) n ≡ contains es n
unfolding member small_char_set
member-small_char_set es n h small =
    rw (shl_one-small n small)
      (rw bit_and-pow (rw (test_bit-union es n h) (ground (arith, pow_pos n))))

-- The characters before the first one of the set.
abbrev pub take_outside : List ℕ → Text → Text
take_outside es [] = []
take_outside es (c ∷ s) = if contains es c then [] else c ∷ take_outside es s

abbrev pub drop_outside : List ℕ → Text → Text
drop_outside es [] = []
drop_outside es (c ∷ s) = if contains es c then c ∷ s else drop_outside es s

pub outside-append : (es : List ℕ) (s : Text) → take_outside es s ++ drop_outside es s ≡ s
outside-append es [] = refl
outside-append es (c ∷ s) = ground (arith, outside-append es s)

contains-large : (es : List ℕ) (c : ℕ) → AllSmall es → 64 ≤ c → contains es c ≡ false
contains-large [] c h k = refl
contains-large (e ∷ es) c h k = ground (arith, contains-large es c h.1 k)

nonmember_bytes-encode :
    (es : List ℕ) (c : ℕ) (bs : List ℕ)
    → AllSmall es
    → nonmember_bytes (small_char_set es) (encode_utf8 c ++ bs)
      ≡ (if contains es c then 0 else utf8_len c + nonmember_bytes (small_char_set es) bs)
unfolding nonmember_bytes encode_utf8
nonmember_bytes-encode es c bs h = elim (Bool-cases (ltb c 64)) [
  | inl small ↦ ground (arith, member-small_char_set es c h (omega tests))
  | inr large ↦ ground (arith, contains-large es c h (omega tests))
]

-- For a set of characters below 64 the loop over the UTF-8 bytes gives the length in bytes of the
-- longest prefix of characters outside the set.
pub nonmember_prefix_len-eq :
    (es : List ℕ) (s : Text)
    → AllSmall es
    → nonmember_prefix_len (small_char_set es) s ≡ byte_len (take_outside es s)
unfolding nonmember_prefix_len byte_len
nonmember_prefix_len-eq es [] h = refl
nonmember_prefix_len-eq es (c ∷ s) h =
    ground (arith, nonmember_bytes-encode es c (bytes s) h, nonmember_prefix_len-eq es s h)
