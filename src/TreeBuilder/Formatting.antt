-- ===== src/TreeBuilder/Formatting.antt =====
-- src/tree_builder/actions.rs: the list of active formatting elements, its last entry first, and
-- `equiv_modulo_attr_order` of src/tokenizer/interface.rs. The sorting of attributes by the
-- standard library is a parameter.
use html.Prelude.{
  ℕ, suc, Bool, true, false, ◌&&◌, Option, none, some, List, [], ◌∷◌, if◌then◌else◌, leb, text_eq,
  Checked, ok, panic, remove_at,
}
use html.Tokenizer.Interface.{Attribute, TagKind, start_tag, end_tag, Tag}
use html.Names.{Atoms, qual_eq}
use html.TreeBuilder.Types.{FormatEntry, element, marker}
use html.TreeBuilder.Interface.{TreeSink}
use html.TreeBuilder.Builder.{Act, ◌>>=◌, ◌>>◌, pure, ask, modify}
use html.TreeBuilder.Insert.{push_it, insert_element}

unfoldable pub kind_eq : TagKind → TagKind → Bool
kind_eq start_tag start_tag = true
kind_eq end_tag end_tag = true
kind_eq _ _ = false

-- Every match takes the place of the last one.
unfoldable pub further : Option ℕ → Bool → Option ℕ
further (some i) here = some (suc i)
further none here = if here then some 0 else none

module _ (a : Atoms) where
  unfoldable pub attrs_eq : List (Attribute a.Atom) → List (Attribute a.Atom) → Bool
  unfolding qual_eq
  attrs_eq [] [] = true
  attrs_eq (x ∷ xs) (y ∷ ys) =
      (qual_eq a x.name y.name && text_eq x.value y.value) && attrs_eq xs ys
  attrs_eq _ _ = false

  module _ (sort : List (Attribute a.Atom) → List (Attribute a.Atom)) where
    unfoldable pub equiv_modulo_attr_order : Tag a.Atom → Tag a.Atom → Bool
    unfolding kind_eq attrs_eq
    equiv_modulo_attr_order tag other =
        (kind_eq tag.kind other.kind && text_eq (a.as_slice tag.name) (a.as_slice other.name))
        && attrs_eq (sort tag.attrs) (sort other.attrs)

    -- The loop of `create_formatting_element_for` up to the last marker: how many entries match,
    -- and where the last one stands that the loop meets.
    unfoldable pub matches :
        {Handle : Type 0} → Tag a.Atom → List (FormatEntry Handle a.Atom) → ℕ × Option ℕ
    unfolding equiv_modulo_attr_order further
    matches tag [] = (0, none)
    matches tag (marker ∷ rest) = (0, none)
    matches tag (element h old_tag ∷ rest) =
        let (n, met) = matches tag rest in
        let here = equiv_modulo_attr_order tag old_tag in
        (if here then suc n else n, further met here)

    -- The entries behind the removal of the earliest of three.
    unfoldable pub make_room :
        {Handle : Type 0}
        → Tag a.Atom
        → List (FormatEntry Handle a.Atom)
        → Checked (List (FormatEntry Handle a.Atom))
    unfolding matches
    make_room tag entries =
        let (n, met) = matches tag entries in
        if leb 3 n
        then elim met [ none ↦ panic | some i ↦ ok (remove_at entries i) ]
        else ok entries

    module _ {x : TreeSink a} where
      unfoldable pub create_formatting_element_for : Tag a.Atom → Act x x.Handle
      unfolding make_room insert_element
      create_formatting_element_for tag = do
        entries ← ask (λ b. make_room tag b.active_formatting)
        modify (λ b. record b { active_formatting = entries })
        elem ← insert_element push_it tag.name tag.attrs
        modify (λ b. record b { active_formatting = element elem tag ∷ b.active_formatting })
        pure elem

module _ {Handle Atom : Type 0} where
  unfoldable pub to_marker : List (FormatEntry Handle Atom) → List (FormatEntry Handle Atom)
  to_marker [] = []
  to_marker (marker ∷ rest) = rest
  to_marker (element h tag ∷ rest) = to_marker rest

module _ {a : Atoms} {x : TreeSink a} where
  unfoldable pub clear_active_formatting_to_marker : Act x (Unit {0})
  unfolding to_marker
  clear_active_formatting_to_marker =
      modify (λ b. record b { active_formatting = to_marker b.active_formatting })
