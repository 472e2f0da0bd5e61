-- ===== src/Prelude/Panics.antt =====
-- Code that may panic (`fail!`, `expect`, `assert!`, an index out of bounds).
use mathlib.Core.Path.{◌≡◌, refl, ap, ◌∙◌}
use mathlib.Core.Logic.{◌⊎◌, inl, inr}
use mathlib.Core.Option.{Option, none, some}

pub data Checked {ℓ} (A : Type ℓ) : Type ℓ where
  ok : A → Checked A
  panic : Checked A

infixl 5 ◌>>=◌
abbrev pub ◌>>=◌ {ℓ κ} : {A : Type ℓ} {B : Type κ} → Checked A → (A → Checked B) → Checked B
panic >>= next = panic
ok a >>= next = next a

-- `expect` and `unwrap`.
abbrev pub expect {ℓ} : {A : Type ℓ} → Option A → Checked A
expect none = panic
expect (some a) = ok a

-- A predicate on the result, if there is no panic.
abbrev pub AllOk {ℓ κ} : {A : Type ℓ} → (A → Type κ) → Checked A → Type κ
AllOk Q (ok a) = Q a
AllOk Q panic = Unit

pub AllOk-bind {ℓ κ} :
    {A B : Type ℓ} {Q : A → Type κ} (R : B → Type κ) (m : Checked A) (f : A → Checked B)
    → AllOk Q m
    → ((a : A) → Q a → AllOk R (f a))
    → AllOk R (m >>= f)
AllOk-bind R panic f h k = tt
AllOk-bind R (ok a) f h k = k a h

pub AllOk-any {ℓ} : {A : Type ℓ} (m : Checked A) → AllOk (λ a. Unit {0}) m
AllOk-any (ok a) = tt
AllOk-any panic = tt

-- A call that returns, and what follows it.
pub bind-ok {ℓ κ} :
    {A : Type ℓ} {B : Type κ} {m : Checked A} {a : A} {r : Checked B} (f : A → Checked B)
    → m ≡ ok a
    → f a ≡ r
    → (m >>= f) ≡ r
bind-ok f e g = ap (λ x. x >>= f) e ∙ g

pub Checked-cases {ℓ} : {A : Type ℓ} (m : Checked A) → ((a : A) × (m ≡ ok a)) ⊎ (m ≡ panic)
Checked-cases (ok a) = inl (a, refl)
Checked-cases panic = inr refl

pub ok-injective {ℓ} : {A : Type ℓ} {a b : A} → ok a ≡ ok b → a ≡ b
ok-injective e = cc
