-- ===== src/Prelude/Tests.antt =====
-- Boolean tests on the native numbers, the conditional, and case lemmas that keep an equation.
use Prim.Native.Nat.{ℕ, zero, suc, ◌≤◌, ◌<◌, compare, Ordering}
use mathlib.Core.Path.{◌≡◌, refl, sym, subst}
use mathlib.Core.Logic.{◌↔◌, ◌⊎◌, inl, inr}
use mathlib.Core.Bool.{Bool, true, false, ◌&&◌}
use mathlib.Core.Option.{Option, none, some}
use native.Mathlib.Omega.{arith}

abbrev pub ltb : ℕ → ℕ → Bool
ltb a b = elim (compare a b) [ Ordering.lt ↦ true | _ ↦ false ]

abbrev pub leb : ℕ → ℕ → Bool
leb a b = elim (compare a b) [ Ordering.gt ↦ false | _ ↦ true ]

infix 50 ◌==◌
abbrev pub ◌==◌ : ℕ → ℕ → Bool
a == b = elim (compare a b) [ Ordering.eq ↦ true | _ ↦ false ]

infix 1 if◌then◌else◌
abbrev pub if◌then◌else◌ {ℓ} : {A : Type ℓ} → Bool → A → A → A
if true then x else y = x
if false then x else y = y

-- The range patterns `lo...hi` of the source.
abbrev pub within : ℕ → ℕ → ℕ → Bool
within lo hi c = leb lo c && leb c hi

pub ==_iff : (a b : ℕ) → ((a == b) ≡ true) ↔ (a ≡ b)
==_iff a b = ground arith

pub ==_refl : (a : ℕ) → (a == a) ≡ true
==_refl a = ground arith

pub Bool-cases : (b : Bool) → (b ≡ true) ⊎ (b ≡ false)
Bool-cases true = inl refl
Bool-cases false = inr refl

pub Option-cases {ℓ} : {A : Type ℓ} (o : Option A) → (o ≡ none) ⊎ ((a : A) × (o ≡ some a))
Option-cases none = inl refl
Option-cases (some a) = inr (a, refl)

-- A predicate on the branch that is taken.
pub if-taken {ℓ κ} :
    {A : Type ℓ} (P : A → Type κ) {b : Bool} {x : A} (y : A)
    → b ≡ true
    → P x
    → P (if b then x else y)
if-taken P {b} {x} y e h = subst (λ c. P (if c then x else y)) (sym e) h

pub if-skipped {ℓ κ} :
    {A : Type ℓ} (P : A → Type κ) {b : Bool} (x : A) {y : A}
    → b ≡ false
    → P y
    → P (if b then x else y)
if-skipped P {b} x {y} e h = subst (λ c. P (if c then x else y)) (sym e) h

-- A test that does not matter.
pub if-same {ℓ} : {A : Type ℓ} (b : Bool) {x y : A} → y ≡ x → (if b then x else y) ≡ x
if-same true e = refl
if-same false e = e

-- `omega` reads a test through these.
pub ltb→lt : (a b : ℕ) → ltb a b ≡ true → a < b
ltb→lt a b h = ground arith

pub ltb→le : (a b : ℕ) → ltb a b ≡ false → b ≤ a
ltb→le a b h = ground arith

pub lt→ltb : (a b : ℕ) → a < b → ltb a b ≡ true
lt→ltb a b h = ground arith

pub le→ltb : (a b : ℕ) → b ≤ a → ltb a b ≡ false
le→ltb a b h = ground arith

pub ruleset tests = (arith, ltb→lt, ltb→le, lt→ltb, le→ltb)

-- A test holds at every number below a bound.
unfoldable pub every : ℕ → (ℕ → Bool) → Bool
every zero test = true
every (suc bound) test = test 0 && every bound (λ k. test (suc k))

pub every_sound :
    (bound : ℕ) (test : ℕ → Bool) (k : ℕ) → every bound test ≡ true → k < bound → test k ≡ true
unfolding every
every_sound (suc bound) test zero all below = ground arith
every_sound (suc bound) test (suc k) all below =
    every_sound bound (λ j. test (suc j)) k (ground arith) (omega arith)
every_sound zero test k all below = absurd (omega arith)
