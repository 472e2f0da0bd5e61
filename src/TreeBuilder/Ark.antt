-- ===== src/TreeBuilder/Ark.antt =====
-- src/tree_builder/actions.rs, `create_formatting_element_for`: never more than three entries for
-- one formatting element behind the last marker.
use html.Prelude.{
  ℕ, zero, suc, ◌≤◌, ◌<◌, ◌≡◌, refl, ap, ◌∙◌, ◌⊎◌, inl, inr, Bool, true, false, ◌&&◌, none, some,
  List, [], ◌∷◌, if◌then◌else◌, leb, text_eq, text_eq-eq, Text, ok, remove_at, arith, Bool-cases,
  if-taken, if-skipped,
}
use html.Tokenizer.Interface.{Attribute, TagKind, start_tag, end_tag, Tag}
use html.Names.{Atoms, qual_eq}
use html.TreeBuilder.Types.{FormatEntry, element, marker}
use html.TreeBuilder.Formatting.{
  kind_eq, attrs_eq, equiv_modulo_attr_order, further, matches, make_room,
}

zero-cases : (n : ℕ) → (n ≡ 0) ⊎ (0 < n)
zero-cases zero = inl refl
zero-cases (suc n) = inr (omega arith)

text_eq-agree : (x y z : Text) → text_eq x y ≡ true → text_eq x z ≡ text_eq y z
text_eq-agree x y z e = ap (λ t. text_eq t z) (text_eq-eq x y e)

kind_eq-agree : (x y z : TagKind) → kind_eq x y ≡ true → kind_eq x z ≡ kind_eq y z
unfolding kind_eq
kind_eq-agree start_tag start_tag z e = refl
kind_eq-agree end_tag end_tag z e = refl
kind_eq-agree start_tag end_tag z e = ground (arith, e)
kind_eq-agree end_tag start_tag z e = ground (arith, e)

and-agree :
    {b c : Bool} (b1 b2 c1 c2 : Bool)
    → (b && c) ≡ true
    → (b ≡ true → b1 ≡ b2)
    → (c ≡ true → c1 ≡ c2)
    → (b1 && c1) ≡ (b2 && c2)
and-agree {b} {c} b1 b2 c1 c2 e f g =
    let f' = f (ground (arith, e)) in let g' = g (ground (arith, e)) in cc

attrs_eq-agree :
    (a : Atoms) (xs ys zs : List (Attribute a.Atom))
    → attrs_eq a xs ys ≡ true
    → attrs_eq a xs zs ≡ attrs_eq a ys zs
unfolding attrs_eq qual_eq
attrs_eq-agree a [] [] zs e = refl
attrs_eq-agree a (x ∷ xs) (y ∷ ys) [] e = refl
attrs_eq-agree a (x ∷ xs) (y ∷ ys) (z ∷ zs) e =
    and-agree _ _ _ _ e
      (λ f.
        and-agree _ _ _ _ f
          (λ g.
            and-agree _ _ _ _ g (text_eq-agree _ _ (a.as_slice z.name.ns))
              (text_eq-agree _ _ (a.as_slice z.name.local)))
          (text_eq-agree x.value y.value z.value))
      (attrs_eq-agree a xs ys zs)
attrs_eq-agree a [] (y ∷ ys) zs e = ground (arith, e)
attrs_eq-agree a (x ∷ xs) [] zs e = ground (arith, e)

equiv-agree :
    (a : Atoms) (sort : List (Attribute a.Atom) → List (Attribute a.Atom)) (t u old : Tag a.Atom)
    → equiv_modulo_attr_order a sort t u ≡ true
    → equiv_modulo_attr_order a sort t old ≡ equiv_modulo_attr_order a sort u old
unfolding equiv_modulo_attr_order
equiv-agree a sort t u old e =
    and-agree _ _ _ _ e
      (λ f.
        and-agree _ _ _ _ f (kind_eq-agree t.kind u.kind old.kind)
          (text_eq-agree (a.as_slice t.name) (a.as_slice u.name) (a.as_slice old.name)))
      (attrs_eq-agree a (sort t.attrs) (sort u.attrs) (sort old.attrs))

module _ (a : Atoms) (sort : List (Attribute a.Atom) → List (Attribute a.Atom))
    {Handle : Type 0} where
  -- How many entries behind the last marker are equivalent to a tag.
  unfoldable pub alike : Tag a.Atom → List (FormatEntry Handle a.Atom) → ℕ
  alike tag [] = 0
  alike tag (marker ∷ rest) = 0
  alike tag (element h old_tag ∷ rest) =
      let n = alike tag rest in if equiv_modulo_attr_order a sort tag old_tag then suc n else n

  alike-matches :
      (tag : Tag a.Atom) (entries : List (FormatEntry Handle a.Atom))
      → (matches a sort tag entries).0 ≡ alike tag entries
  unfolding matches alike
  alike-matches tag [] = refl
  alike-matches tag (marker ∷ rest) = refl
  alike-matches tag (element h old_tag ∷ rest) = rw (alike-matches tag rest) refl

  -- Taking out the entry that was met leaves one equivalent entry less, and no more of any other.
  record Met (tag : Tag a.Atom) (entries : List (FormatEntry Handle a.Atom)) : Type 0 where
    pub place : ℕ
    pub met : (matches a sort tag entries).1 ≡ some place
    pub fewer : (other : Tag a.Atom) → alike other (remove_at entries place) ≤ alike other entries
    pub one_less :
        (other : Tag a.Atom)
        → ((old : Tag a.Atom)
            → equiv_modulo_attr_order a sort other old ≡ equiv_modulo_attr_order a sort tag old)
        → suc (alike other (remove_at entries place)) ≡ alike other entries

  -- No entry is met where none is equivalent.
  matches-none :
      (tag : Tag a.Atom) (entries : List (FormatEntry Handle a.Atom))
      → alike tag entries ≡ 0
      → (matches a sort tag entries).1 ≡ none
  unfolding matches alike further
  matches-none tag [] e = refl
  matches-none tag (marker ∷ rest) e = refl
  matches-none tag (element h old ∷ rest) e =
      let f : equiv_modulo_attr_order a sort tag old ≡ false = ground (arith, e) in
      rw f (rw (matches-none tag rest (ground (arith, f, e))) refl)

  matches-Met :
      (tag : Tag a.Atom) (entries : List (FormatEntry Handle a.Atom))
      → 0 < alike tag entries
      → Met tag entries
  unfolding matches alike further
  matches-Met tag [] some_alike = absurd (omega arith)
  matches-Met tag (marker ∷ rest) some_alike = absurd (omega arith)
  matches-Met tag (element h old ∷ rest) some_alike = elim (zero-cases (alike tag rest)) [
    | inr more ↦
        let later = matches-Met tag rest more in
        record {
          place = suc later.place;
          met = rw later.met refl;
          fewer = λ other. ground (arith, later.fewer other);
          one_less = λ other same. ground (arith, later.one_less other same);
        }
    | inl last ↦
        let here : equiv_modulo_attr_order a sort tag old ≡ true =
          ground (arith, last, some_alike) in
        record {
          place = 0;
          met = rw (matches-none tag rest last) (rw here refl);
          fewer = λ other. ground arith;
          one_less = λ other same. ground (arith, same old, here);
        }
  ]

  -- The list is within bounds for every tag.
  unfoldable pub AtMostThree : List (FormatEntry Handle a.Atom) → Type 0
  AtMostThree entries = (tag : Tag a.Atom) → alike tag entries ≤ 3

  alike-agree :
      (t u : Tag a.Atom) (entries : List (FormatEntry Handle a.Atom))
      → equiv_modulo_attr_order a sort t u ≡ true
      → alike t entries ≡ alike u entries
  unfolding alike
  alike-agree t u [] e = refl
  alike-agree t u (marker ∷ rest) e = refl
  alike-agree t u (element h old ∷ rest) e =
      rw (equiv-agree a sort t u old e) (rw (alike-agree t u rest e) refl)

  -- A new entry, where there is room for it.
  pushed-AtMostThree :
      (h : Handle) (tag : Tag a.Atom) (left : List (FormatEntry Handle a.Atom))
      → AtMostThree left
      → alike tag left ≤ 2
      → AtMostThree (element h tag ∷ left)
  unfolding AtMostThree alike
  pushed-AtMostThree h tag left bound room other =
      elim (Bool-cases (equiv_modulo_attr_order a sort other tag)) [
        | inl e ↦ rw e (omega (arith, alike-agree other tag left e))
        | inr e ↦ rw e (bound other)
      ]

  -- If behind the last marker of the list of active formatting elements at most three entries are
  -- equivalent to any tag, then the removal of create_formatting_element_for returns without a
  -- panic, and the list with the new entry for the tag has that property again.
  pub make_room-AtMostThree :
      (h : Handle) (tag : Tag a.Atom) (entries : List (FormatEntry Handle a.Atom))
      → AtMostThree entries
      → (left : List (FormatEntry Handle a.Atom)) × (make_room a sort tag entries ≡ ok left)
        × AtMostThree (element h tag ∷ left)
  unfolding make_room AtMostThree
  make_room-AtMostThree h tag entries bound = elim (Bool-cases (leb 3 (alike tag entries))) [
    | inl e ↦
        let at = matches-Met tag entries (ground (arith, e)) in
        let left = remove_at entries at.place in
        let below : AtMostThree left = λ other. omega (arith, bound other, at.fewer other) in
        let room : alike tag left ≤ 2 = omega (arith, at.one_less tag (λ old. refl), bound tag) in
        (
          left,
          if-taken (λ r. r ≡ ok left) _ (ap (leb 3) (alike-matches tag entries) ∙ e)
              (rw at.met refl),
          pushed-AtMostThree h tag left below room,
        )
    | inr e ↦ (
      entries,
      if-skipped (λ r. r ≡ ok entries) _ (ap (leb 3) (alike-matches tag entries) ∙ e) refl,
      pushed-AtMostThree h tag entries bound (ground (arith, e)),
    )
  ]
