-- ===== src/Tests/TreeWitnesses.antt =====
-- The theorems on the serializer, the sink and the tree builder at concrete inputs.
use html.Prelude.{
  suc, ◌≤◌, if◌then◌else◌, ◌≡◌, refl, ◌++◌, true, false, none, some, List, [], ◌∷◌, Text, codes, ok,
  ℕ, Bool, ◌≢◌, ◌⊎◌, All, arith,
}
use html.Names.{is_html, no_namespace, local_in}
use html.Serialize.Markup.{
  doctype_text, start_text, attrs_text, inner_text, opened, is_void, comment_text, end_text,
}
use html.Serialize.{prepend_lf, escapes, write_escaped, default_opts}
use html.Serialize.Writes.{Steps, Ends}
use html.Serialize.Escape.{escaped, decode, IsInert, write_escaped-Decoded}
use html.Sink.Owned.{serialize}
use html.Sink.Owned.Markup.{IsRoot, IsTree, final, content, serialize-Ends}
use html.Util.Str.{is_ascii_whitespace, char_run, ascii_lower_map, eq_ignore_ascii_case}
use html.Util.Utf8.{bytes}
use html.Util.Str.Runs.{Run, char_run-Run}
use html.Tokenizer.Interface.{Doctype, new_doctype}
use html.TreeBuilder.Types.{FormatEntry, element}
use html.TreeBuilder.Interface.{append_node, append_text, quirks}
use html.TreeBuilder.Data.{doctype_error_and_quirks}
use html.TreeBuilder.Quirks.{doctype_error_and_quirks-prefix}
use html.TreeBuilder.TagSets.{button_scope, cursory_implied_end}
use html.TreeBuilder.Stack.{html_elem_named, in_scope_loop, implied_end_loop}
use html.TreeBuilder.Scope.{
  InScope, in_scope_loop-cases, first_of, Implied, implied_end_loop-Implied,
}
use html.TreeBuilder.Builder.{TreeBuilder, new}
use html.TreeBuilder.Closing.{close_p_element_in_button_scope}
use html.TreeBuilder.Paragraphs.{is_p, Closed, close_p_element_in_button_scope-Closed}
use html.TreeBuilder.Formatting.{equiv_modulo_attr_order, make_room}
use html.TreeBuilder.Ark.{alike, AtMostThree, make_room-AtMostThree}
use html.Sink.Store.{Handle, null, ptr, same, append, remove_from_parent}
use html.Sink.Build.{append_before_sibling}
use html.Sink.Links.{children_at, parent_at, IsLinked}
use html.Sink.Moves.{remove_from_parent-Linked}
use html.Sink.Before.{append_before_sibling-Linked, append_before_sibling-cases}
use html.Sink.Append.{append-Linked}
use html.Sink.Tree.{owned_sink}
use html.Tests.TreeInputs.{
  StoreSink, one_child, one_child-IsLinked, child_body, child_paragraph, parent_body, names,
  named_p, p_tests, sample-AreNamed, sample_builder, sample_tag, text_atoms, memory, Holds, Broken,
  memory-IsWriter, sample_tree,
}

serialize-Ends_example :
    Ends memory text_atoms Holds Broken default_opts
      (final text_atoms sample_tree ∷ [])
      (content text_atoms default_opts sample_tree)
      (serialize memory text_atoms [] sample_tree default_opts)
unfolding IsRoot IsTree is_html no_namespace
serialize-Ends_example =
    serialize-Ends text_atoms memory-IsWriter default_opts [] sample_tree []
      (tt, ((refl, (refl, tt), (tt, ((refl, tt, tt), (tt, tt)))), tt)) refl

sample_markup :
    content text_atoms default_opts sample_tree
    ≡ codes "<!DOCTYPE html\n<p id=\"a&amp;b\">1 &lt; 2<br><!--x--></p>"
unfolding content doctype_text start_text attrs_text escaped inner_text prepend_lf escapes opened
    is_void is_html local_in comment_text end_text
sample_markup = refl

write_escaped-Decoded_example :
    (out : Text) × Steps memory text_atoms Holds Broken default_opts [] [] out
      (write_escaped memory text_atoms (codes "a<\"&") true)
    × (decode out ≡ codes "a<\"&")
    × All (IsInert true) out
write_escaped-Decoded_example =
    write_escaped-Decoded memory-IsWriter default_opts [] (codes "a<\"&") true

remove_from_parent-Linked_example :
    (s' : StoreSink) × (remove_from_parent one_child (ptr 1) ≡ ok s')
    × IsLinked s'
    × (parent_at s' (ptr 1) ≡ null)
    × ((x : Handle) → same x (ptr 1) ≡ false → parent_at s' x ≡ parent_at one_child x)
remove_from_parent-Linked_example =
    remove_from_parent-Linked one_child one_child-IsLinked (ptr 1) child_body

append_before_sibling-Linked_example :
    (s' : StoreSink) × (append_before_sibling one_child (ptr 1) (append_node (ptr 2))
      ≡ ok (none, s'))
    × IsLinked s'
    × (parent_at s' (ptr 2) ≡ ptr 0)
    × (parent_at one_child (ptr 2) ≢ ptr 0
        → (front : List Handle) × (back : List Handle) × (children_at one_child (ptr 0)
            ≡ front ++ ptr 1 ∷ back)
          × (children_at s' (ptr 0) ≡ front ++ ptr 2 ∷ ptr 1 ∷ back))
append_before_sibling-Linked_example =
    append_before_sibling-Linked one_child one_child-IsLinked (ptr 1) (ptr 2) 0 child_body
      child_paragraph parent_body

append-Linked_example :
    (s' : StoreSink) × (append one_child (ptr 1) (append_text (codes "x")) ≡ ok s') × IsLinked s'
append-Linked_example =
    append-Linked one_child one_child-IsLinked 1 (append_text (codes "x")) child_body tt

append_before_sibling-cases_example :
    ((parent_at one_child (ptr 1) ≡ null)
      × (append_before_sibling one_child (ptr 1) (append_node (ptr 2))
          ≡ ok (some (append_node (ptr 2)), one_child)))
    ⊎ ((parent_at one_child (ptr 1) ≢ null)
        × ((s' : StoreSink) × (append_before_sibling one_child (ptr 1) (append_node (ptr 2))
              ≡ ok (none, s'))
            × IsLinked s'
            × (parent_at s' (ptr 2) ≡ parent_at one_child (ptr 1))))
append_before_sibling-cases_example =
    append_before_sibling-cases one_child one_child-IsLinked (ptr 1) (ptr 2) child_body
      child_paragraph

char_run-Run_example :
    ((codes " \n中" ≡ []) × (char_run is_ascii_whitespace (codes " \n中") ≡ none))
    ⊎ ((len : ℕ) × (m : Bool) × (char_run is_ascii_whitespace (codes " \n中") ≡ some (len, m))
        × Run is_ascii_whitespace (codes " \n中") len m)
char_run-Run_example = char_run-Run is_ascii_whitespace (codes " \n中")

abbrev old_doctype : Doctype
old_doctype = record new_doctype {
  name = some (codes "html");
  public_id = some (codes "-//W3C//DTD HTML 3.2//EN");
}

doctype_error_and_quirks-prefix_example : (doctype_error_and_quirks old_doctype false).1 ≡ quirks
unfolding eq_ignore_ascii_case ascii_lower_map bytes
doctype_error_and_quirks-prefix_example =
    doctype_error_and_quirks-prefix old_doctype (codes "-//W3C//DTD HTML 3.2//") (codes "EN")
      (codes "-//w3c//dtd html 3.2//") refl refl refl

in_scope_loop-cases_example :
    ((in_scope_loop
          (owned_sink text_atoms)
          one_child
          (button_scope text_atoms)
          (λ h. html_elem_named (owned_sink text_atoms) one_child h (codes "p"))
          (ptr 2 ∷ ptr 1 ∷ [])
        ≡ ok true)
      × InScope
          (owned_sink text_atoms)
          one_child
          names
          (button_scope text_atoms)
          named_p
          (ptr 2 ∷ ptr 1 ∷ []))
    ⊎ ((in_scope_loop
            (owned_sink text_atoms)
            one_child
            (button_scope text_atoms)
            (λ h. html_elem_named (owned_sink text_atoms) one_child h (codes "p"))
            (ptr 2 ∷ ptr 1 ∷ [])
          ≡ ok false)
        × (InScope
              (owned_sink text_atoms)
              one_child
              names
              (button_scope text_atoms)
              named_p
              (ptr 2 ∷ ptr 1 ∷ [])
            → ⊥))
unfolding append new
in_scope_loop-cases_example =
    in_scope_loop-cases (owned_sink text_atoms) one_child names (button_scope text_atoms)
      (λ h. html_elem_named (owned_sink text_atoms) one_child h (codes "p")) named_p p_tests
      (ptr 2 ∷ ptr 1 ∷ []) sample-AreNamed

implied_end_loop-Implied_example :
    (rest : List Handle) × (implied_end_loop
        (owned_sink text_atoms)
        one_child
        (cursory_implied_end text_atoms)
        (ptr 2 ∷ ptr 1 ∷ [])
      ≡ ok rest)
    × Implied
        (owned_sink text_atoms)
        one_child
        names
        (cursory_implied_end text_atoms)
        (ptr 2 ∷ ptr 1 ∷ [])
        rest
    × All (λ h. cursory_implied_end text_atoms (names h) ≡ false) (first_of rest)
unfolding append new
implied_end_loop-Implied_example =
    implied_end_loop-Implied (owned_sink text_atoms) one_child names
      (cursory_implied_end text_atoms) (ptr 2 ∷ ptr 1 ∷ []) sample-AreNamed

close_p_element_in_button_scope-Closed_example :
    (b' : TreeBuilder text_atoms (owned_sink text_atoms)) × (close_p_element_in_button_scope
        sample_builder
      ≡ ok (tt, b'))
    × (((b' ≡ sample_builder)
          × (InScope
                (owned_sink text_atoms)
                sample_builder.sink
                names
                (button_scope text_atoms)
                (λ h. is_p text_atoms (names h))
                sample_builder.open_elems
              → ⊥))
        ⊎ Closed (owned_sink text_atoms) sample_builder names b')
close_p_element_in_button_scope-Closed_example =
    close_p_element_in_button_scope-Closed (owned_sink text_atoms) sample_builder names
      sample-AreNamed

-- Three entries for the same tag, so that one has to go.
abbrev three_entries : List (FormatEntry Handle Text)
three_entries =
    element (ptr 3) sample_tag ∷ element (ptr 2) sample_tag ∷ element (ptr 1) sample_tag ∷ []

three_entries-AtMostThree : AtMostThree text_atoms (λ attrs. attrs) three_entries
unfolding AtMostThree alike
three_entries-AtMostThree tag =
    by_test (equiv_modulo_attr_order text_atoms (λ attrs. attrs) tag sample_tag)
  where
    by_test :
        (b : Bool)
        → (let n = if b then 1 else 0 in let m = if b then suc n else n in if b then suc m else m)
          ≤ 3
    by_test b = ground arith

make_room-AtMostThree_example :
    (left : List (FormatEntry Handle Text)) × (make_room text_atoms
        (λ attrs. attrs)
        sample_tag
        three_entries
      ≡ ok left)
    × AtMostThree text_atoms (λ attrs. attrs) (element (ptr 4) sample_tag ∷ left)
make_room-AtMostThree_example =
    make_room-AtMostThree text_atoms (λ attrs. attrs) (ptr 4) sample_tag three_entries
      three_entries-AtMostThree
