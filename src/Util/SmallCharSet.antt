-- ===== src/Util/SmallCharSet.antt =====
-- src/util/smallcharset.rs: sets of characters below 64, as the bits of a `u64`.
pub mod Laws
use Prim.Native.Nat.{bit_and, bit_or}
use html.Prelude.{
  ℕ, ◌+◌, ◌%◌, ◌^◌, Bool, true, false, not, ◌||◌, List, [], ◌∷◌, leb, ◌==◌, if◌then◌else◌, Text,
}
use html.Util.Utf8.{bytes}

pub record SmallCharSet : Type 0 where
  pub bits : ℕ

-- `1 << n`, on 64 bits.
abbrev pub shl_one : ℕ → ℕ
shl_one n = 2 ^ n % 2 ^ 64

pub member : SmallCharSet → ℕ → Bool
member set n = not (bit_and set.bits (shl_one n) == 0)

-- The loop over the bytes: the number of them before the first member.
pub nonmember_bytes : SmallCharSet → List ℕ → ℕ
nonmember_bytes set [] = 0
nonmember_bytes set (b ∷ bs) =
    let rest = nonmember_bytes set bs in if leb 64 b || not (member set b) then 1 + rest else 0

unfoldable pub nonmember_prefix_len : SmallCharSet → Text → ℕ
unfolding nonmember_bytes member bytes
nonmember_prefix_len set buf = nonmember_bytes set (bytes buf)

abbrev pub union_bits : List ℕ → ℕ
union_bits [] = 0
union_bits (e ∷ es) = bit_or (shl_one e) (union_bits es)

-- The macro `small_char_set!`.
unfoldable pub small_char_set : List ℕ → SmallCharSet
small_char_set es = record { bits = union_bits es }
