-- ===== src/Prelude/Lists.antt =====
-- Lists over native numbers: lengths, indices, membership by test, and the predicate `All`.
use Prim.Native.Nat.{ℕ, zero, suc, ◌+◌}
use Prim.Native.Char.{code}
use Prim.Native.String.{String}
use mathlib.Core.Path.{◌≡◌, refl}
use mathlib.Core.Bool.{Bool, true, false, ◌||◌}
use mathlib.Core.List.{List, [], ◌∷◌, ◌++◌}
use mathlib.Core.Option.{Option, none, some}
use native.Mathlib.Omega.{arith}
use html.Prelude.Tests.{◌==◌}

-- Strings of the source: sequences of Unicode scalar values.
abbrev pub Text : Type 0
Text = List ℕ

-- The scalar values of a literal.
abbrev pub codes : String → Text
codes String.[] = []
codes (String.◌∷◌ c s) = code c ∷ codes s

module _ {ℓ} {A : Type ℓ} where
  abbrev pub length : List A → ℕ
  length [] = 0
  length (x ∷ xs) = suc (length xs)

  abbrev pub get_elem? : List A → ℕ → Option A
  get_elem? [] i = none
  get_elem? (x ∷ xs) zero = some x
  get_elem? (x ∷ xs) (suc i) = get_elem? xs i

  abbrev pub drop : ℕ → List A → List A
  drop zero xs = xs
  drop (suc n) [] = []
  drop (suc n) (x ∷ xs) = drop n xs

  abbrev pub head? : List A → Option A
  head? [] = none
  head? (x ∷ xs) = some x

  abbrev pub tail : List A → List A
  tail [] = []
  tail (x ∷ xs) = xs

  -- `Vec::remove`, of a position in range.
  abbrev pub remove_at : List A → ℕ → List A
  remove_at [] i = []
  remove_at (x ∷ xs) zero = xs
  remove_at (x ∷ xs) (suc i) = x ∷ remove_at xs i

  abbrev pub last? : List A → Option A
  last? [] = none
  last? (x ∷ []) = some x
  last? (x ∷ (y ∷ xs)) = last? (y ∷ xs)

  -- A predicate on every element, which computes to a tuple.
  abbrev pub All {κ} : (A → Type κ) → List A → Type κ
  All P [] = Unit
  All P (x ∷ xs) = P x × All P xs

  pub length-append : (xs ys : List A) → length (xs ++ ys) ≡ length xs + length ys
  length-append [] ys = omega arith
  length-append (x ∷ xs) ys = omega (arith, length-append xs ys)

  pub All-append {κ} :
      (P : A → Type κ) (front back : List A) → All P front → All P back → All P (front ++ back)
  All-append P (x ∷ front) back h k = (h.0, All-append P front back h.1 k)
  All-append P [] back h k = k

-- Membership by test.
abbrev pub contains : List ℕ → ℕ → Bool
contains [] c = false
contains (x ∷ xs) c = c == x || contains xs c

-- Equality of strings.
abbrev pub text_eq : Text → Text → Bool
text_eq [] [] = true
text_eq (x ∷ xs) (y ∷ ys) = elim (x == y) [ true ↦ text_eq xs ys | false ↦ false ]
text_eq _ _ = false

-- Membership of a string in a list.
abbrev pub contains_text : List Text → Text → Bool
contains_text [] s = false
contains_text (x ∷ xs) s = text_eq s x || contains_text xs s

pub text_eq-eq : (x y : Text) → text_eq x y ≡ true → x ≡ y
text_eq-eq [] [] e = refl
text_eq-eq (a ∷ x) (b ∷ y) e = let f : a ≡ b = ground arith in ap2 f (text_eq-eq x y (ground arith))
  where
    ap2 : {a b : ℕ} {x y : Text} → a ≡ b → x ≡ y → (a ∷ x) ≡ (b ∷ y)
    ap2 f g = cc
text_eq-eq [] (b ∷ y) e = ground arith
text_eq-eq (a ∷ x) [] e = ground arith
