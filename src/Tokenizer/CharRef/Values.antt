-- ===== src/Tokenizer/CharRef/Values.antt =====
-- src/tokenizer/char_ref/mod.rs: the number of a numeric reference, and the character it stands for.
use Prim.Native.Nat.{bit_and}
use html.Prelude.{
  ℕ, ◌+◌, ◌-◌, ◌*◌, ◌%◌, ◌^◌, ◌≤◌, ◌<◌, ◌≡◌, ◌≢◌, refl, sym, ◌∙◌, not, ◌&&◌, ◌==◌, if◌then◌else◌,
  every, every_sound, Bool, true, false, ◌||◌, Option, none, some, List, [], ◌∷◌, All, ltb, within,
  Checked, ok, get_elem?, arith, tests, Bool-cases, inl, inr, ◌⊎◌,
}
use html.Tokenizer.Machine.{CharRefTokenizer, new_char_ref}
use html.Tokenizer.CharRef.Numeric.{
  to_digit, digit_below, from_u32, conv, with_error, c1_replacements, c1_value, finish_value,
}
use html.Tokenizer.CharRef.Numbers.{push_digit}

-- A Unicode scalar value other than U+0000.
pub record IsChar (c : ℕ) : Type 0 where
  pub not_null : c ≢ 0
  pub in_range : c ≤ 0x10FFFF
  pub not_surrogate : within 0xD800 0xDFFF c ≡ false

-- The character and whether it is an error, of a returned call.
pub record Finished (out : Checked (ℕ × Bool)) : Type 0 where
  pub character : ℕ
  pub is_error : Bool
  pub returns : out ≡ ok (character, is_error)
  pub valid : IsChar character

conv-Finished : (n : ℕ) (e : Bool) → IsChar n → Finished (with_error e (conv n))
unfolding with_error conv from_u32
conv-Finished n e h = record {
  character = n;
  is_error = e;
  returns = ground (arith, h.in_range, h.not_surrogate);
  valid = h;
}

known-Finished : (c : ℕ) (e : Bool) → IsChar c → Finished (ok (c, e))
known-Finished c e h = record { character = c; is_error = e; returns = refl; valid = h }

replacement-IsChar : IsChar 0xFFFD
replacement-IsChar = record {
  not_null = λ e. omega (arith, e);
  in_range = omega arith;
  not_surrogate = refl;
}

-- A conditional that returns in both branches.
if-Finished :
    (b : Bool) {m n : Checked (ℕ × Bool)}
    → Finished m
    → (b ≡ false → Finished n)
    → Finished (if b then m else n)
if-Finished true m n = m
if-Finished false m n = n refl

is_char : ℕ → Bool
is_char c = ltb 0 c && ltb c 0x110000 && not (within 0xD800 0xDFFF c)

is_char-IsChar : (c : ℕ) → is_char c ≡ true → IsChar c
unfolding is_char
is_char-IsChar c h = record {
  not_null = λ e. ground arith;
  in_range = ground arith;
  not_surrogate = ground arith;
}

-- An entry of the table of replacements is there, and none or a character.
entry_ok : Option (Option ℕ) → Bool
unfolding is_char
entry_ok none = false
entry_ok (some none) = true
entry_ok (some (some c)) = is_char c

c1_table : every 32 (λ k. entry_ok (get_elem? c1_replacements k)) ≡ true
unfolding every entry_ok
c1_table = refl

c1_value-Finished :
    (n : ℕ) (o : Option (Option ℕ)) → IsChar n → entry_ok o ≡ true → Finished (c1_value n o)
unfolding c1_value entry_ok
c1_value-Finished n none h e = cc
c1_value-Finished n (some none) h e = conv-Finished n true h
c1_value-Finished n (some (some c)) h e = known-Finished c true (is_char-IsChar c e)

-- The arms that leave the number as it is.
others-Finished :
    (b b' : Bool) (n : ℕ)
    → IsChar n
    → Finished (
        if b
        then with_error true (conv n)
        else if b'
        then with_error true (conv n)
        else with_error false (conv n))
others-Finished true b' n h = conv-Finished n true h
others-Finished false true n h = conv-Finished n true h
others-Finished false false n h = conv-Finished n false h

-- Whatever number was read and whatever the flag, the match of finish_numeric does not panic, and
-- its character is a Unicode scalar value other than U+0000.
pub finish_value-Finished : (n : ℕ) (too_big : Bool) → Finished (finish_value n too_big)
unfolding finish_value
finish_value-Finished n too_big =
    if-Finished _ (known-Finished 0xFFFD true replacement-IsChar) (λ small.
      if-Finished _ (known-Finished 0xFFFD true replacement-IsChar) (λ plain.
        let valid : IsChar n = in_gap small plain in
        if-c1 _ refl valid (
          others-Finished
            (within 0x01 0x08 n
              || n == 0x0B
              || within 0x0D 0x1F n
              || n == 0x7F
              || within 0xFDD0 0xFDEF n)
            (bit_and n 0xFFFE == 0xFFFE) n valid)))
  where
    in_gap :
        (ltb 0x10FFFF n || too_big) ≡ false
        → (n == 0x00 || within 0xD800 0xDFFF n) ≡ false
        → IsChar n
    in_gap small plain = record {
      not_null = λ e. ground arith;
      in_range = ground arith;
      not_surrogate = ground arith;
    }

    if-c1 :
        (b : Bool) {m : Checked (ℕ × Bool)}
        → within 0x80 0x9F n ≡ b
        → IsChar n
        → Finished m
        → Finished (if b then c1_value n (get_elem? c1_replacements (n - 0x80)) else m)
    if-c1 true e valid m =
        c1_value-Finished n _ valid (every_sound 32 _ (n - 0x80) c1_table (ground arith))
    if-c1 false e valid m = m

-- The number that digits denote, in positional notation.
abbrev pub value : ℕ → ℕ → List ℕ → ℕ
value base acc [] = acc
value base acc (d ∷ ds) = value base (acc * base + d) ds

-- Reading the digits one by one.
abbrev pub push_digits : CharRefTokenizer → ℕ → List ℕ → CharRefTokenizer
push_digits r base [] = r
push_digits r base (d ∷ ds) = push_digits (push_digit r base d) base ds

-- The register holds the number, or the flag says that it is out of range.
Tracks : CharRefTokenizer → ℕ → Type 0
Tracks r v =
    ((r.num_too_big ≡ false) × (r.num ≡ v) × (v ≤ 0x10FFFF + 15))
    ⊎ ((r.num_too_big ≡ true) × (0x10FFFF < v))

scale-small :
    (v base : ℕ) → (base ≡ 10) ⊎ (base ≡ 16) → v ≤ 0x10FFFF + 15 → v * base % 2 ^ 32 ≡ v * base
scale-small v base (inl e) le = rw e (omega arith)
scale-small v base (inr e) le = rw e (omega arith)

base-small : (base : ℕ) → (base ≡ 10) ⊎ (base ≡ 16) → base ≤ 16
base-small base (inl e) = omega arith
base-small base (inr e) = omega arith

grows : (v base : ℕ) → (base ≡ 10) ⊎ (base ≡ 16) → v ≤ v * base
grows v base (inl e) = rw e (omega arith)
grows v base (inr e) = rw e (omega arith)

push_digit-Tracks :
    (r : CharRefTokenizer) (base v d : ℕ)
    → (base ≡ 10) ⊎ (base ≡ 16)
    → d < base
    → Tracks r v
    → Tracks (push_digit r base d) (v * base + d)
unfolding Tracks push_digit
push_digit-Tracks r base v d is h (inr (b, big)) = inr (rw b refl, omega (arith, grows v base is))
push_digit-Tracks r base v d is h (inl (b, n, le)) =
    rw (b, n, scale-small v base is le)
      (elim (Bool-cases (ltb 0x10FFFF (v * base))) [
        | inl big ↦ inr (big, omega tests)
        | inr small ↦
            inl (small, omega (tests, base-small base is), omega (tests, base-small base is))
      ])

push_digits-Tracks :
    (r : CharRefTokenizer) (base v : ℕ) (ds : List ℕ)
    → (base ≡ 10) ⊎ (base ≡ 16)
    → All (λ d. d < base) ds
    → Tracks r v
    → Tracks (push_digits r base ds) (value base v ds)
push_digits-Tracks r base v [] is h k = k
push_digits-Tracks r base v (d ∷ ds) is h k =
    push_digits-Tracks (push_digit r base d) base (v * base + d) ds is h.1
      (push_digit-Tracks r base v d is h.0 k)

finish_value-big :
    (n : ℕ) (too_big : Bool)
    → (ltb 0x10FFFF n || too_big) ≡ true
    → finish_value n too_big ≡ ok (0xFFFD, true)
unfolding finish_value
finish_value-big n too_big e = rw e

Tracks-finish_value :
    (r : CharRefTokenizer) (v : ℕ)
    → Tracks r v
    → finish_value r.num r.num_too_big ≡ finish_value v false
unfolding Tracks
Tracks-finish_value r v (inl (b, n, le)) = rw (b, n)
Tracks-finish_value r v (inr (b, big)) =
    finish_value-big r.num r.num_too_big (ground arith)
    ∙ sym (finish_value-big v false (ground arith))

-- Reading decimal or hexadecimal digits below the base, in the wrapping arithmetic of u32 and
-- with the flag for numbers that are too big, gives the same character and error as the unbounded
-- number that the digits denote, however many digits there are.
pub push_digits-finish_value :
    (base : ℕ) (ds : List ℕ) (addnl : Option ℕ)
    → (base ≡ 10) ⊎ (base ≡ 16)
    → All (λ d. d < base) ds
    → (let r = push_digits (new_char_ref addnl) base ds in finish_value r.num r.num_too_big)
      ≡ finish_value (value base 0 ds) false
push_digits-finish_value base ds addnl is h =
    Tracks-finish_value (push_digits (new_char_ref addnl) base ds) (value base 0 ds) (
      push_digits-Tracks (new_char_ref addnl) base 0 ds is h
        (unfold Tracks new_char_ref in inl (refl, refl, omega arith)))

-- `to_digit` answers the digits of the base only.
pub to_digit-below : (c base d : ℕ) → to_digit c base ≡ some d → d < base
unfolding to_digit digit_below
to_digit-below c base d e = ground arith
