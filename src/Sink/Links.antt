-- ===== src/Sink/Links.antt =====
-- src/sink/owned_dom.rs: parents and children of the nodes, read off the vector of nodes.
use html.Prelude.{
  ℕ, zero, suc, ◌+◌, ◌≡◌, refl, ap, ◌∙◌, Bool, true, false, Option, none, some, List, [], ◌∷◌, ◌==◌,
  if◌then◌else◌, Checked, ok, panic, expect, get_elem?, arith, Bool-cases, ==_refl, ◌<◌,
  Checked-cases,
}
use mathlib.Core.Logic.{inl, inr}
use html.Sink.Store.{Handle, null, ptr, same, SquishyNode, Sink, set_at, deref, store}

pub same_eq : (x y : Handle) → same x y ≡ true → x ≡ y
same_eq null null e = refl
same_eq (ptr i) (ptr j) e = ap ptr (ground arith)
same_eq null (ptr j) e = ground arith
same_eq (ptr i) null e = ground arith

pub same_refl : (x : Handle) → same x x ≡ true
same_refl null = refl
same_refl (ptr i) = ==_refl i

pub same_sym : (x y : Handle) → same x y ≡ same y x
same_sym null null = refl
same_sym (ptr i) (ptr j) = ground arith
same_sym null (ptr j) = refl
same_sym (ptr i) null = refl

abbrev pub tally : Bool → ℕ
tally b = if b then 1 else 0

-- How often a handle stands in a list.
abbrev pub count : Handle → List Handle → ℕ
count h [] = 0
count h (x ∷ xs) = tally (same x h) + count h xs

module _ {Atom : Type 0} where
  unfoldable pub children_of : Checked (SquishyNode Atom) → List Handle
  children_of panic = []
  children_of (ok n) = n.children

  unfoldable pub parent_of : Checked (SquishyNode Atom) → Handle
  parent_of panic = null
  parent_of (ok n) = n.parent

  get-set_same :
      (xs : List (SquishyNode Atom)) (i : ℕ) (x y : SquishyNode Atom)
      → get_elem? xs i ≡ some x
      → get_elem? (set_at xs i y) i ≡ some y
  get-set_same [] i x y e = ground arith
  get-set_same (z ∷ xs) zero x y e = refl
  get-set_same (z ∷ xs) (suc i) x y e = get-set_same xs i x y e

  get-set_other :
      (xs : List (SquishyNode Atom)) (i j : ℕ) (y : SquishyNode Atom)
      → (j == i) ≡ false
      → get_elem? (set_at xs i y) j ≡ get_elem? xs j
  get-set_other [] i j y e = refl
  get-set_other (z ∷ xs) zero zero y e = ground arith
  get-set_other (z ∷ xs) zero (suc j) y e = refl
  get-set_other (z ∷ xs) (suc i) zero y e = refl
  get-set_other (z ∷ xs) (suc i) (suc j) y e = get-set_other xs i j y (ground arith)

  expect-ok : (o : Option (SquishyNode Atom)) (n : SquishyNode Atom) → expect o ≡ ok n → o ≡ some n
  expect-ok none n e = ground arith
  expect-ok (some m) n e = ground arith

module _ {Atom Error : Type 0} where
  -- The children of a node, and its parent; a handle that points to no node has neither.
  unfoldable pub children_at : Sink Atom Error → Handle → List Handle
  unfolding children_of
  children_at s h = children_of (deref s h)

  unfoldable pub parent_at : Sink Atom Error → Handle → Handle
  unfolding parent_of
  parent_at s h = parent_of (deref s h)

  -- A node has its parent's handle just if it is, once, among the children there.
  abbrev pub IsLinked : Sink Atom Error → Type 0
  IsLinked s =
      (i : ℕ) (h : Handle) → count h (children_at s (ptr i)) ≡ tally (same (parent_at s h) (ptr i))

module _ {Atom Error : Type 0} (s : Sink Atom Error) where
  deref-store_same :
      (h : Handle) (n m : SquishyNode Atom) → deref s h ≡ ok n → deref (store s h m) h ≡ ok m
  unfolding deref store
  deref-store_same null n m e = ground arith
  deref-store_same (ptr i) n m e =
      ap expect (get-set_same s.nodes i n m (expect-ok (get_elem? s.nodes i) n e))

  deref-store_other :
      (x h : Handle) (m : SquishyNode Atom) → same x h ≡ false → deref (store s h m) x ≡ deref s x
  unfolding deref store
  deref-store_other x null m e = refl
  deref-store_other null (ptr i) m e = refl
  deref-store_other (ptr j) (ptr i) m e = ap expect (get-set_other s.nodes i j m e)

  pub deref-store :
      (h : Handle) (n m : SquishyNode Atom) (x : Handle)
      → deref s h ≡ ok n
      → deref (store s h m) x ≡ (if same x h then ok m else deref s x)
  deref-store h n m x e = elim (Bool-cases (same x h)) [
    | inl y ↦ rw y (rw (same_eq x h y) (deref-store_same h n m e))
    | inr y ↦ rw y (deref-store_other x h m y)
  ]

  pub children_at-store :
      (h : Handle) (n m : SquishyNode Atom) (x : Handle)
      → deref s h ≡ ok n
      → children_at (store s h m) x ≡ (if same x h then m.children else children_at s x)
  unfolding children_at children_of
  children_at-store h n m x e = rw (deref-store h n m x e) (ground arith)

  pub parent_at-store :
      (h : Handle) (n m : SquishyNode Atom) (x : Handle)
      → deref s h ≡ ok n
      → parent_at (store s h m) x ≡ (if same x h then m.parent else parent_at s x)
  unfolding parent_at parent_of
  parent_at-store h n m x e = rw (deref-store h n m x e) (ground arith)

  pub parent_kept :
      (h : Handle) (n : SquishyNode Atom) (x : Handle)
      → deref s h ≡ ok n
      → (if same x h then n.parent else parent_at s x) ≡ parent_at s x
  unfolding parent_at parent_of
  parent_kept h n x e = elim (Bool-cases (same x h)) [
    | inl y ↦ rw y (rw (same_eq x h y) (rw e refl))
    | inr y ↦ rw y refl
  ]

  pub children_kept :
      (h : Handle) (n : SquishyNode Atom) (x : Handle)
      → deref s h ≡ ok n
      → (if same x h then n.children else children_at s x) ≡ children_at s x
  unfolding children_at children_of
  children_kept h n x e = elim (Bool-cases (same x h)) [
    | inl y ↦ rw y (rw (same_eq x h y) (rw e refl))
    | inr y ↦ rw y refl
  ]

  pub parent_at-children_store :
      (h : Handle) (n : SquishyNode Atom) (cs : List Handle) (x : Handle)
      → deref s h ≡ ok n
      → parent_at (store s h (record n { children = cs })) x ≡ parent_at s x
  parent_at-children_store h n cs x e =
      parent_at-store h n (record n { children = cs }) x e ∙ parent_kept h n x e

  pub children_at-parent_store :
      (h : Handle) (n : SquishyNode Atom) (q : Handle) (x : Handle)
      → deref s h ≡ ok n
      → children_at (store s h (record n { parent = q })) x ≡ children_at s x
  children_at-parent_store h n q x e =
      children_at-store h n (record n { parent = q }) x e ∙ children_kept h n x e

  -- What is read of a live node.
  pub deref-children :
      (h : Handle) (n : SquishyNode Atom) → deref s h ≡ ok n → n.children ≡ children_at s h
  unfolding children_at children_of
  deref-children h n e = rw e refl

  pub deref-parent :
      (h : Handle) (n : SquishyNode Atom) → deref s h ≡ ok n → n.parent ≡ parent_at s h
  unfolding parent_at parent_of
  deref-parent h n e = rw e refl

  -- A node that has a child is there.
  pub children_at-live :
      (p h : Handle) → 0 < count h (children_at s p) → (n : SquishyNode Atom) × (deref s p ≡ ok n)
  unfolding children_at children_of
  children_at-live p h some_h = elim (Checked-cases (deref s p)) [
    | inl e ↦ e
    | inr e ↦ absurd (ground (arith, e))
  ]
