-- ===== src/TreeBuilder/Stack.antt =====
-- src/tree_builder/actions.rs: the loops over the stack of open elements, its last element first.
use html.Prelude.{
  ℕ, suc, Bool, true, false, not, Option, none, some, List, [], ◌∷◌, if◌then◌else◌, Text, codes,
  Checked, ok, panic, ◌>>=◌, head?, get_elem?,
}
use html.Tokenizer.Interface.{QualName}
use html.Names.{Atoms, html_namespace, is_html, qual_eq, local_in}
use html.TreeBuilder.TagSets.{TagSet}
use html.TreeBuilder.Types.{
  InsertionMode, in_select, in_cell, in_row, in_table_body, in_caption, in_column_group, in_table,
  in_head, in_body, in_frameset, before_head, after_head,
}
use html.TreeBuilder.Interface.{TreeSink}

-- A name in the namespace of HTML.
abbrev pub html_name : (a : Atoms) → a.Atom → QualName a.Atom
html_name a local = record { ns = a.from_slice html_namespace; local = local }

-- The vector of which a stack is the reverse.
abbrev pub from_bottom {ℓ} : {A : Type ℓ} → List A → List A → List A
from_bottom [] bottom = bottom
from_bottom (h ∷ stack) bottom = from_bottom stack (h ∷ bottom)

module _ {a : Atoms} (x : TreeSink a) (s : x.Sink) where
  open x use {Handle, elem_name}

  unfoldable pub html_elem_named : Handle → a.Atom → Checked Bool
  unfolding qual_eq
  html_elem_named elem name = do n ← elem_name s elem; ok (qual_eq a n (html_name a name))

  unfoldable pub elem_in : Handle → TagSet a → Checked Bool
  elem_in elem set = do n ← elem_name s elem; ok (set n)

  -- The loop of `in_scope`.
  unfoldable pub in_scope_loop : TagSet a → (Handle → Checked Bool) → List Handle → Checked Bool
  in_scope_loop scope pred [] = ok false
  in_scope_loop scope pred (node ∷ rest) =
      let further = in_scope_loop scope pred rest in
      pred node >>= λ found.
      if found
      then ok true
      else (elem_name s node >>= λ name. if scope name then ok false else further)

  -- `generate_implied_end`: what it leaves.
  unfoldable pub implied_end_loop : TagSet a → List Handle → Checked (List Handle)
  implied_end_loop set [] = ok []
  implied_end_loop set (elem ∷ rest) =
      let further = implied_end_loop set rest in
      elem_name s elem >>= λ nsname. if set nsname then further else ok (elem ∷ rest)

  -- `pop_until_current`, which fails on an empty stack.
  unfoldable pub until_current_loop : TagSet a → List Handle → Checked (List Handle)
  until_current_loop pred [] = panic
  until_current_loop pred (elem ∷ rest) =
      let further = until_current_loop pred rest in
      elem_name s elem >>= λ name. if pred name then ok (elem ∷ rest) else further

  -- `pop_until`: how many elements it counts, and what it leaves.
  unfoldable pub pop_until_loop : TagSet a → List Handle → Checked (ℕ × List Handle)
  pop_until_loop pred [] = ok (1, [])
  pop_until_loop pred (elem ∷ rest) =
      let further = pop_until_loop pred rest in
      elem_name s elem >>= λ name.
      if pred name then ok (1, rest) else (further >>= λ r. ok (suc r.0, r.1))

  -- `remove_from_stack`.
  unfoldable pub without_elem : Handle → List Handle → List Handle
  without_elem elem [] = []
  without_elem elem (h ∷ rest) =
      let further = without_elem elem rest in
      if not (x.same_node s elem h) then h ∷ further else further

  -- `body_elem`.
  unfoldable pub body_of : List Handle → Checked (Option Handle)
  unfolding html_elem_named
  body_of bottom = elim (get_elem? bottom 1) [
    | none ↦ ok none
    | some node ↦ html_elem_named node (a.from_slice (codes "body")) >>= λ is.
        ok (if is then some node else none)
  ]

  -- The last table on the stack, with the element below it.
  unfoldable pub last_table : List Handle → Checked (Option (Handle × Option Handle))
  unfolding html_elem_named
  last_table [] = ok none
  last_table (h ∷ rest) =
      let further = last_table rest in
      html_elem_named h (a.from_slice (codes "table")) >>= λ is.
      if is then ok (some (h, head? rest)) else further

  -- The first name, from the bottom of the stack, that is not in the set of `check_body_end`.
  unfoldable pub first_outside : TagSet a → List Handle → Checked (Option (QualName a.Atom))
  first_outside set [] = ok none
  first_outside set (h ∷ rest) =
      let further = first_outside set rest in
      elem_name s h >>= λ name. if not (set name) then ok (some name) else further

  -- The match of `reset_insertion_mode` on the name of an HTML element.
  unfoldable pub mode_for : QualName a.Atom → Bool → Option Handle → Checked (Option InsertionMode)
  unfolding local_in
  mode_for name last head_elem =
      let is : List Text → Bool = λ tags. local_in a name tags in
      if is (codes "select" ∷ [])
      then ok (some in_select)
      else if is (codes "td" ∷ codes "th" ∷ [])
      then ok (if not last then some in_cell else none)
      else if is (codes "tr" ∷ [])
      then ok (some in_row)
      else if is (codes "tbody" ∷ codes "thead" ∷ codes "tfoot" ∷ [])
      then ok (some in_table_body)
      else if is (codes "caption" ∷ [])
      then ok (some in_caption)
      else if is (codes "colgroup" ∷ [])
      then ok (some in_column_group)
      else if is (codes "table" ∷ [])
      then ok (some in_table)
      else if is (codes "head" ∷ [])
      then ok (if not last then some in_head else none)
      else if is (codes "body" ∷ [])
      then ok (some in_body)
      else if is (codes "frameset" ∷ [])
      then ok (some in_frameset)
      else if is (codes "html" ∷ [])
      then ok (some (elim head_elem [ none ↦ before_head | some h ↦ after_head ]))
      else if is (codes "template" ∷ [])
      then panic
      else ok none

  is_empty : List Handle → Bool
  is_empty [] = true
  is_empty (h ∷ rest) = false

  unfoldable pub reset_loop : Option Handle → List Handle → Checked InsertionMode
  unfolding is_html mode_for is_empty
  reset_loop head_elem [] = ok in_body
  reset_loop head_elem (node ∷ rest) =
      let further = reset_loop head_elem rest in
      elem_name s node >>= λ name.
      if is_html a name
      then (mode_for name (is_empty rest) head_elem >>= λ mode. elim mode [
        | none ↦ further
        | some m ↦ ok m
      ])
      else further
