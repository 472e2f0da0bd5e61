-- ===== src/Sink/Family.antt =====
-- src/sink/owned_dom.rs: every method that moves nodes keeps parents and children in step.
use html.Prelude.{
  get_elem?, remove_at, ℕ, zero, suc, ◌+◌, ◌≡◌, refl, ap, some, List, [], ◌∷◌, ◌++◌, ok, length,
  ◌<◌, ◌≤◌, arith, Bool-cases, if-taken,
}
use mathlib.Core.Logic.{inl, inr}
use html.Sink.Store.{Handle, null, ptr, same, Sink, insert_at, index_of}
use html.Sink.Links.{same_eq, same_refl, same_sym, tally, count, children_at, parent_at, IsLinked}
use html.Sink.Rewired.{Rewired}

pub count-append : (h : Handle) (xs ys : List Handle) → count h (xs ++ ys) ≡ count h xs + count h ys
count-append h [] ys = omega arith
count-append h (x ∷ xs) ys = omega (arith, count-append h xs ys)

pub count-middle :
    (h c : Handle) (xs ys : List Handle)
    → count h (xs ++ c ∷ ys) ≡ count h (xs ++ ys) + tally (same c h)
count-middle h c xs ys = omega (arith, count-append h xs (c ∷ ys), count-append h xs ys)

-- A handle that is counted stands at the position that `index_of` finds.
pub record Found (h : Handle) (xs : List Handle) : Type 0 where
  pub front : List Handle
  pub back : List Handle
  pub splits : xs ≡ front ++ h ∷ back
  pub position : index_of h xs ≡ some (length front)

pub index_of-Found : (h : Handle) (xs : List Handle) → 0 < count h xs → Found h xs
index_of-Found h [] some_h = absurd (omega arith)
index_of-Found h (x ∷ xs) some_h = elim (Bool-cases (same x h)) [
  | inl e ↦ record {
    front = [];
    back = xs;
    splits = ap (λ y. y ∷ xs) (same_eq x h e);
    position = if-taken (λ o. o ≡ some 0) _ e refl;
  }
  | inr e ↦
      let at = index_of-Found h xs (ground arith) in
      record {
        front = x ∷ at.front;
        back = at.back;
        splits = ap (λ l. x ∷ l) at.splits;
        position = rw e (rw at.position refl);
      }
]

pub remove_at-middle :
    (xs ys : List Handle) (c : Handle) → remove_at (xs ++ c ∷ ys) (length xs) ≡ xs ++ ys
remove_at-middle [] ys c = refl
remove_at-middle (x ∷ xs) ys c = ap (λ l. x ∷ l) (remove_at-middle xs ys c)

pub get_elem?-middle :
    (xs ys : List Handle) (c : Handle) → get_elem? (xs ++ c ∷ ys) (length xs) ≡ some c
get_elem?-middle [] ys c = refl
get_elem?-middle (x ∷ xs) ys c = get_elem?-middle xs ys c

pub insert_at-middle :
    (xs ys : List Handle) (c : Handle) → insert_at (xs ++ ys) (length xs) c ≡ ok (xs ++ c ∷ ys)
insert_at-middle [] ys c = refl
insert_at-middle (x ∷ xs) ys c = rw (insert_at-middle xs ys c) refl

-- A position in range.
pub record Inserted (c : Handle) (xs : List Handle) (i : ℕ) : Type 0 where
  pub list : List Handle
  pub inserts : insert_at xs i c ≡ ok list
  pub counts : (h : Handle) → count h list ≡ count h xs + tally (same c h)

pub insert_at-Inserted : (c : Handle) (xs : List Handle) (i : ℕ) → i ≤ length xs → Inserted c xs i
insert_at-Inserted c xs zero le = record {
  list = c ∷ xs;
  inserts = refl;
  counts = λ h. omega arith;
}
insert_at-Inserted c [] (suc i) le = absurd (omega arith)
insert_at-Inserted c (x ∷ xs) (suc i) le =
    let rest = insert_at-Inserted c xs i (omega arith) in
    record {
      list = x ∷ rest.list;
      inserts = rw rest.inserts refl;
      counts = λ h. omega (arith, rest.counts h);
    }

module _ {Atom Error : Type 0} (s s' : Sink Atom Error) (i : ℕ) (c : Handle)
    (cs : List Handle) where
  pub Rewired-attached :
      IsLinked s
      → Rewired s s' (ptr i) cs c (ptr i)
      → parent_at s c ≡ null
      → ((h : Handle) → count h cs ≡ count h (children_at s (ptr i)) + tally (same c h))
      → IsLinked s'
  Rewired-attached linked new orphan more j h = rw (new.children_now (ptr j)) (
      rw (new.parent_now h) (elim (Bool-cases (same h c)) [
        | inl e ↦ rw e (
            rw (same_eq h c e)
              (ground (arith, more c, linked j c, linked i c, orphan, same_refl c)))
        | inr e ↦ rw e (ground (arith, more h, linked j h, linked i h, same_sym c h))
      ]))

  pub Rewired-detached :
      IsLinked s
      → Rewired s s' (ptr i) cs c null
      → parent_at s c ≡ ptr i
      → ((h : Handle) → count h cs + tally (same c h) ≡ count h (children_at s (ptr i)))
      → IsLinked s'
  Rewired-detached linked new parent less j h = rw (new.children_now (ptr j)) (
      rw (new.parent_now h) (elim (Bool-cases (same h c)) [
        | inl e ↦ rw e (
            rw (same_eq h c e)
              (ground (arith, less c, linked j c, linked i c, parent, same_refl c)))
        | inr e ↦ rw e (ground (arith, less h, linked j h, linked i h, same_sym c h))
      ]))
