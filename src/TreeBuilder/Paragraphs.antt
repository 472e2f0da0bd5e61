-- ===== src/TreeBuilder/Paragraphs.antt =====
-- src/tree_builder/actions.rs: closing the paragraph in button scope.
use html.Prelude.{
  ℕ, ◌≡◌, refl, sym, ap, ◌∙◌, subst, ◌⊎◌, inl, inr, Bool, true, false, ◌&&◌, ◌||◌, List, [], ◌∷◌,
  ◌++◌, ◌==◌, if◌then◌else◌, Checked, ok, All, All-append, codes, Text, text_eq, arith, bind-ok,
  append_assoc,
}
use html.Tokenizer.Interface.{QualName}
use html.Names.{Atoms, html_namespace, is_html, local_in, qual_eq}
use html.TreeBuilder.TagSets.{TagSet, one_of, without_tags, button_scope, cursory_implied_end}
use html.TreeBuilder.Types.{unexpected_closing}
use html.TreeBuilder.Interface.{TreeSink}
use html.TreeBuilder.Builder.{TreeBuilder, pure, report}
use html.TreeBuilder.Stack.{
  html_name, html_elem_named, in_scope_loop, implied_end_loop, pop_until_loop,
}
use html.TreeBuilder.Closing.{
  in_scope, in_scope_named, generate_implied_end, pop_until, pop_until_named, expect_to_close,
  close_p_element, close_p_element_in_button_scope,
}
use html.TreeBuilder.Scope.{
  AreNamed, InScope, in_scope_loop-cases, implied_end_loop-Implied, pop_until_loop-cases,
}

module _ (a : Atoms) where
  -- A name compared with one of HTML is a set of one name.
  qual_eq-one_of :
      (n : QualName a.Atom) (t : Text)
      → qual_eq a n (html_name a (a.from_slice t)) ≡ one_of a (t ∷ []) n
  unfolding qual_eq one_of is_html local_in
  qual_eq-one_of n t = rw (a.as_slice-from_slice html_namespace) (
      rw (a.as_slice-from_slice t) (
        ap (λ b. text_eq (a.as_slice n.ns) html_namespace && b)
          (or-false (text_eq (a.as_slice n.local) t))))
    where
      or-false : (b : Bool) → b ≡ (b || false)
      or-false b = ground arith

  pub is_p : QualName a.Atom → Bool
  unfolding qual_eq
  is_p n = qual_eq a n (html_name a (a.from_slice (codes "p")))

  -- Implied end tags other than that of a paragraph end no paragraph.
  implied-NotP :
      (n : QualName a.Atom)
      → without_tags a (cursory_implied_end a) (codes "p" ∷ []) n ≡ true
      → is_p n ≡ false
  unfolding without_tags is_p
  implied-NotP n e = qual_eq-one_of n (codes "p") ∙ ground (arith, e)

module _ {a : Atoms} (x : TreeSink a) (b : TreeBuilder a x)
    (named : x.Handle → QualName a.Atom) where
  abbrev NotP : x.Handle → Type 0
  NotP h = is_p a (named h) ≡ false

  -- The stack is cut off below its last paragraph, which is in button scope.
  pub record Closed (b' : TreeBuilder a x) : Type 0 where
    pub above : List x.Handle
    pub target : x.Handle
    pub splits : b.open_elems ≡ above ++ target ∷ b'.open_elems
    pub is_paragraph : is_p a (named target) ≡ true
    pub none_above : All NotP above
    pub open_above : All (λ h. button_scope a (named h) ≡ false) above

  All-middle :
      (P : x.Handle → Type 0) (above : List x.Handle) (t : x.Handle) (below : List x.Handle)
      → All P (above ++ t ∷ below)
      → P t
  All-middle P [] t below h = h.0
  All-middle P (k ∷ above) t below h = All-middle P above t below h.1

  All-map :
      (P Q : x.Handle → Type 0)
      → ((h : x.Handle) → P h → Q h)
      → (xs : List x.Handle) → All P xs
      → All Q xs
  All-map P Q f [] h = tt
  All-map P Q f (k ∷ xs) h = (f k h.0, All-map P Q f xs h.1)

  All-back :
      (P : x.Handle → Type 0) (front back : List x.Handle) → All P (front ++ back) → All P back
  All-back P [] back h = h
  All-back P (k ∷ front) back h = All-back P front back h.1

  -- What holds above some paragraph holds above the last one.
  above_last :
      (P : x.Handle → Type 0) (above : List x.Handle) (target : x.Handle) (below : List x.Handle)
      (front : List x.Handle) (other : x.Handle) (back : List x.Handle)
      → (above ++ target ∷ below) ≡ (front ++ other ∷ back)
      → All NotP above
      → is_p a (named other) ≡ true
      → All P front
      → All P above
  above_last P [] target below front other back e clear is all = tt
  above_last P (h ∷ above) target below [] other back e clear is all =
      let same : h ≡ other = cc in
      let no : is_p a (named other) ≡ false = subst NotP same clear.0 in
      absurd (ground (arith, no, is))
  above_last P (h ∷ above) target below (k ∷ front) other back e clear is all =
      let same : h ≡ k = cc in
      let rest : (above ++ target ∷ below) ≡ (front ++ other ∷ back) = cc in
      (
        subst P (sym same) all.0,
        above_last P above target below front other back rest clear.1 is all.1,
      )

  -- The builder with another stack.
  abbrev on_stack : List x.Handle → TreeBuilder a x
  on_stack stack = record b { open_elems = stack }

  pop_until-returns :
      (pred : TagSet a) (stack rest : List x.Handle) (n : ℕ)
      → pop_until_loop x b.sink pred stack ≡ ok (n, rest)
      → pop_until {a = a} {x = x} pred (on_stack stack) ≡ ok (n, on_stack rest)
  unfolding pop_until
  pop_until-returns pred stack rest n e = rw e refl

  generate_implied_end-returns :
      (set : TagSet a) (rest : List x.Handle)
      → implied_end_loop x b.sink set b.open_elems ≡ ok rest
      → generate_implied_end {a = a} {x = x} set b ≡ ok (tt, on_stack rest)
  unfolding generate_implied_end
  generate_implied_end-returns set rest e = rw e refl

  in_button_scope : Checked Bool
  in_button_scope =
      in_scope_loop x b.sink (button_scope a)
        (λ h. html_elem_named x b.sink h (a.from_slice (codes "p"))) b.open_elems

  no_paragraph : in_button_scope ≡ ok false → close_p_element_in_button_scope b ≡ ok (tt, b)
  unfolding close_p_element_in_button_scope in_scope_named in_scope in_button_scope
  no_paragraph e = rw e refl

  closes_paragraph :
      (rest : List x.Handle) (b' : TreeBuilder a x)
      → in_button_scope ≡ ok true
      → implied_end_loop x b.sink
          (without_tags a (cursory_implied_end a) (codes "p" ∷ []))
          b.open_elems
        ≡ ok rest
      → expect_to_close (a.from_slice (codes "p")) (on_stack rest) ≡ ok (tt, b')
      → close_p_element_in_button_scope b ≡ ok (tt, b')
  unfolding close_p_element_in_button_scope in_scope_named in_scope close_p_element in_button_scope
  closes_paragraph rest b' e f g = rw e (
      rw
        (generate_implied_end-returns (without_tags a (cursory_implied_end a) (codes "p" ∷ [])) rest
          f)
        g)

  reported :
      (c : Bool) (rest : List x.Handle)
      → (b' : TreeBuilder a x) × ((if c
              then pure tt
              else report
                  (codes "Unexpected open element")
                  (unexpected_closing (a.from_slice (codes "p"))))
            (on_stack rest)
          ≡ ok (tt, b'))
        × (b'.open_elems ≡ rest)
  unfolding report
  reported true rest = (on_stack rest, refl, refl)
  reported false rest = (_, refl, refl)

  expect_to_close-Closed :
      (popped rest : List x.Handle)
      → b.open_elems ≡ popped ++ rest
      → All NotP popped
      → AreNamed x b.sink named rest
      → InScope x b.sink named (button_scope a) (λ h. is_p a (named h)) b.open_elems
      → (b' : TreeBuilder a x) × (expect_to_close (a.from_slice (codes "p")) (on_stack rest)
          ≡ ok (tt, b'))
        × Closed b'
  unfolding expect_to_close pop_until_named is_p
  expect_to_close-Closed popped rest splits clear names found =
      let (n, left, e, cases) = pop_until_loop-cases x b.sink named (is_p a) rest names in
      let (b', f, same) = reported (n == 1) left in
      (
        b',
        rw (pop_until-returns (is_p a) rest left n e) f,
        elim cases [
          | inl to ↦
              let above = popped ++ to.above in
              let splits' : b.open_elems ≡ above ++ to.target ∷ left =
                splits
                ∙ (ap (λ l. popped ++ l) to.splits
                    ∙ sym (append_assoc popped to.above (to.target ∷ left))) in
              let none_above = All-append NotP popped to.above clear to.none_above in
              record {
                above = above;
                target = to.target;
                splits = splits' ∙ ap (λ l. above ++ to.target ∷ l) (sym same);
                is_paragraph = to.in_set;
                none_above = none_above;
                open_above =
                    above_last _ above to.target left found.above found.target found.below
                      (sym splits' ∙ found.splits) none_above found.passes found.open_above;
              }
          | inr lost ↦ absurd (
              ground (
                arith,
                found.passes,
                All-middle NotP found.above found.target found.below (
                    subst (All NotP) (sym splits ∙ found.splits)
                      (All-append NotP popped rest clear lost.2)),
              ))
        ],
      )

  named_test :
      (h : x.Handle)
      → x.elem_name b.sink h ≡ ok (named h)
      → html_elem_named x b.sink h (a.from_slice (codes "p")) ≡ ok (is_p a (named h))
  unfolding html_elem_named is_p
  named_test h e = bind-ok _ e refl

  -- For a stack of open elements whose names the sink knows, close_p_element_in_button_scope
  -- returns without a panic. Either no paragraph is in button scope and nothing is changed, or
  -- the stack is cut off below the paragraph that is nearest to its top, and no element above
  -- that paragraph bounds the button scope.
  pub close_p_element_in_button_scope-Closed :
      AreNamed x b.sink named b.open_elems
      → (b' : TreeBuilder a x) × (close_p_element_in_button_scope b ≡ ok (tt, b'))
        × (((b' ≡ b)
              × (InScope x b.sink named (button_scope a) (λ h. is_p a (named h)) b.open_elems → ⊥))
            ⊎ Closed b')
  unfolding in_button_scope
  close_p_element_in_button_scope-Closed names =
      elim (in_scope_loop-cases x b.sink named (button_scope a)
        (λ h. html_elem_named x b.sink h (a.from_slice (codes "p"))) (λ h. is_p a (named h))
        named_test b.open_elems names) [
          | inr (e, lost) ↦ (b, no_paragraph e, inl (refl, lost))
          | inl (e, found) ↦
              let (rest, f, popped, stops) =
                implied_end_loop-Implied x b.sink named
                  (without_tags a (cursory_implied_end a) (codes "p" ∷ [])) b.open_elems names in
              let clear =
                All-map _ NotP (λ h g. implied-NotP a (named h) g) popped.popped popped.implied in
              let (b', g, closed) =
                expect_to_close-Closed popped.popped rest popped.splits clear
                  (All-back _ popped.popped rest
                    (subst (AreNamed x b.sink named) popped.splits names))
                  found in
              (b', closes_paragraph rest b' e f g, inr closed)
        ]
