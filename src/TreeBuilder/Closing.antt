-- ===== src/TreeBuilder/Closing.antt =====
-- src/tree_builder/actions.rs: the methods that look at the stack of open elements and pop it.
use html.Prelude.{
  ℕ, Bool, not, ◌&&◌, Option, none, some, List, [], ◌∷◌, ◌==◌, if◌then◌else◌, codes, Checked, ok,
  panic, expect, head?, last?,
}
use html.Tokenizer.Interface.{QualName}
use html.Names.{Atoms, qual_eq}
use html.TreeBuilder.TagSets.{
  TagSet, one_of, without_tags, button_scope, cursory_implied_end, td_th,
}
use html.TreeBuilder.Types.{InsertionMode, static, unexpected_closing, unexpected_open_tag}
use html.TreeBuilder.Interface.{TreeSink}
use html.TreeBuilder.Builder.{TreeBuilder, Act, ◌>>=◌, ◌>>◌, pure, ask, modify, assert, report}
use html.TreeBuilder.Stack.{
  html_name, from_bottom, html_elem_named, elem_in, in_scope_loop, implied_end_loop,
  until_current_loop, pop_until_loop, without_elem, body_of, first_outside, reset_loop,
}

module _ (a : Atoms) where
  -- The set of `generate_implied_end_except`.
  unfoldable pub implied_except : a.Atom → TagSet a
  unfolding qual_eq cursory_implied_end
  implied_except except p = not (qual_eq a p (html_name a except)) && cursory_implied_end a p

  unfoldable body_end_ok : TagSet a
  unfolding one_of
  body_end_ok = one_of a (
      codes "dd"
      ∷ codes "dt"
      ∷ codes "li"
      ∷ codes "optgroup"
      ∷ codes "option"
      ∷ codes "p"
      ∷ codes "rp"
      ∷ codes "rt"
      ∷ codes "tbody"
      ∷ codes "td"
      ∷ codes "tfoot"
      ∷ codes "th"
      ∷ codes "thead"
      ∷ codes "tr"
      ∷ codes "body"
      ∷ codes "html"
      ∷ [])

module _ {a : Atoms} {x : TreeSink a} where
  open x use {Handle, elem_name}

  abbrev nothing : Act x (Unit {0})
  nothing = pure tt

  -- The stack is replaced by what a loop leaves.
  abbrev leave : (TreeBuilder a x → Checked (List Handle)) → Act x (Unit {0})
  leave loop = ask loop >>= λ rest. modify (λ b. record b { open_elems = rest })

  unfoldable pub current_node : TreeBuilder a x → Checked Handle
  current_node b = expect (head? b.open_elems)

  unfoldable pub current_node_in : TagSet a → Act x Bool
  unfolding current_node elem_in
  current_node_in set = do node ← ask current_node; ask (λ b. elem_in x b.sink node set)

  unfoldable pub current_node_named : a.Atom → Act x Bool
  unfolding current_node html_elem_named
  current_node_named name = do
    node ← ask current_node
    ask (λ b. html_elem_named x b.sink node name)

  unfoldable pub assert_named : Handle → a.Atom → Act x (Unit {0})
  unfolding html_elem_named
  assert_named node name = do is ← ask (λ b. html_elem_named x b.sink node name); assert is

  unfoldable pub push : Handle → Act x (Unit {0})
  push elem = modify (λ b. record b { open_elems = elem ∷ b.open_elems })

  unfoldable pub pop : Act x Handle
  pop b = elim b.open_elems [ [] ↦ panic | elem ∷ rest ↦ ok (elem, record b { open_elems = rest }) ]

  unfoldable pub remove_from_stack : Handle → Act x (Unit {0})
  unfolding without_elem
  remove_from_stack elem =
      modify (λ b. record b { open_elems = without_elem x b.sink elem b.open_elems })

  -- `self.open_elems[0]`.
  unfoldable pub html_elem : TreeBuilder a x → Checked Handle
  html_elem b = expect (last? b.open_elems)

  unfoldable pub body_elem : TreeBuilder a x → Checked (Option Handle)
  unfolding body_of
  body_elem b = body_of x b.sink (from_bottom b.open_elems [])

  unfoldable pub in_scope :
      TagSet a → (TreeBuilder a x → Handle → Checked Bool) → TreeBuilder a x → Checked Bool
  unfolding in_scope_loop
  in_scope scope pred b = in_scope_loop x b.sink scope (pred b) b.open_elems

  unfoldable pub in_scope_named : TagSet a → a.Atom → TreeBuilder a x → Checked Bool
  unfolding in_scope html_elem_named
  in_scope_named scope name = in_scope scope (λ b elem. html_elem_named x b.sink elem name)

  unfoldable pub generate_implied_end : TagSet a → Act x (Unit {0})
  unfolding implied_end_loop
  generate_implied_end set = leave (λ b. implied_end_loop x b.sink set b.open_elems)

  unfoldable pub generate_implied_end_except : a.Atom → Act x (Unit {0})
  unfolding generate_implied_end implied_except
  generate_implied_end_except except = generate_implied_end (implied_except a except)

  unfoldable pub pop_until_current : TagSet a → Act x (Unit {0})
  unfolding until_current_loop
  pop_until_current pred = leave (λ b. until_current_loop x b.sink pred b.open_elems)

  unfoldable pub pop_until : TagSet a → Act x ℕ
  unfolding pop_until_loop
  pop_until pred = do
    (n, rest) ← ask (λ b. pop_until_loop x b.sink pred b.open_elems)
    modify (λ b. record b { open_elems = rest })
    pure n

  unfoldable pub pop_until_named : a.Atom → Act x ℕ
  unfolding pop_until qual_eq
  pop_until_named name = pop_until (λ p. qual_eq a p (html_name a name))

  unfoldable pub expect_to_close : a.Atom → Act x (Unit {0})
  unfolding pop_until_named report
  expect_to_close name = do
    n ← pop_until_named name
    if n == 1 then nothing else report (codes "Unexpected open element") (unexpected_closing name)

  unfoldable pub close_p_element : Act x (Unit {0})
  unfolding generate_implied_end expect_to_close without_tags cursory_implied_end
  close_p_element = do
    generate_implied_end (without_tags a (cursory_implied_end a) (codes "p" ∷ []))
    expect_to_close (a.from_slice (codes "p"))

  unfoldable pub close_p_element_in_button_scope : Act x (Unit {0})
  unfolding in_scope_named close_p_element button_scope
  close_p_element_in_button_scope = do
    found ← ask (in_scope_named (button_scope a) (a.from_slice (codes "p")))
    if found then close_p_element else nothing

  unfoldable pub close_the_cell : Act x (Unit {0})
  unfolding generate_implied_end pop_until cursory_implied_end td_th
  close_the_cell = do
    generate_implied_end (cursory_implied_end a)
    n ← pop_until (td_th a)
    let msg = codes "expected to close <td> or <th> with cell"
    if n == 1 then nothing else modify (λ b. record b { sink = x.parse_error b.sink (static msg) })

  report_open : Option (QualName a.Atom) → Act x (Unit {0})
  unfolding report
  report_open none = nothing
  report_open (some name) =
      report (codes "Unexpected open tag at end of body") (unexpected_open_tag name)

  unfoldable pub check_body_end : Act x (Unit {0})
  unfolding first_outside report_open body_end_ok
  check_body_end = do
    outside ← ask (λ b. first_outside x b.sink (body_end_ok a) (from_bottom b.open_elems []))
    report_open outside

  unfoldable pub reset_insertion_mode : TreeBuilder a x → Checked InsertionMode
  unfolding reset_loop
  reset_insertion_mode b = reset_loop x b.sink b.head_elem b.open_elems

  unfoldable pub adoption_agency : a.Atom → Act x (Unit {0})
  unfolding current_node_named pop
  adoption_agency subject = do
    is ← current_node_named subject
    if is then (pop >> nothing) else nothing
