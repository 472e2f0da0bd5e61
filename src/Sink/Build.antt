-- ===== src/Sink/Build.antt =====
-- src/sink/owned_dom.rs: the methods of `TreeSink` on the nodes while the document is built.
use html.Prelude.{
  ℕ, zero, suc, Bool, true, false, Option, none, some, List, [], ◌∷◌, ◌++◌, if◌then◌else◌, Text,
  Checked, ok, panic, ◌>>=◌, expect, get_elem?,
}
use html.Tokenizer.Interface.{QualName, Attribute}
use html.Names.{Atoms, qual_eq}
use html.TreeBuilder.Interface.{QuirksMode, NodeOrText, append_node, append_text}
use html.Sink.Common.{NodeEnum, doctype, text, comment, element}
use html.Sink.Store.{
  Handle, is_null, Sink, insert_at, deref, store, new_node, get_parent_and_index,
  append_to_existing_text, append_new, remove_from_parent,
}

name_of : {Atom : Type 0} → NodeEnum Atom → Checked (QualName Atom)
name_of (element name attrs) = ok name
name_of kind = panic

module _ {Atom Error : Type 0} where
  unfoldable pub parse_error : Sink Atom Error → Error → Sink Atom Error
  parse_error s msg = record s { errors = s.errors ++ msg ∷ [] }

  unfoldable pub set_quirks_mode : Sink Atom Error → QuirksMode → Sink Atom Error
  set_quirks_mode s mode = record s { quirks_mode = mode }

  unfoldable pub elem_name : Sink Atom Error → Handle → Checked (QualName Atom)
  unfolding deref name_of
  elem_name s target = do n ← deref s target; name_of n.node

  unfoldable pub create_element :
      Sink Atom Error → QualName Atom → List (Attribute Atom) → Handle × Sink Atom Error
  unfolding new_node
  create_element s name attrs = new_node s (element name attrs)

  unfoldable pub create_comment : Sink Atom Error → Text → Handle × Sink Atom Error
  unfolding new_node
  create_comment s t = new_node s (comment t)

  unfoldable pub append_doctype_to_document :
      Sink Atom Error → Text → Text → Text → Checked (Sink Atom Error)
  unfolding append_new
  append_doctype_to_document s name public_id system_id =
      append_new s s.document (doctype name public_id system_id)

  -- The new node, unless its text went into the node before the insertion point.
  unfoldable pub node_before :
      Sink Atom Error → Handle → ℕ → NodeOrText Handle → Checked (Option Handle × Sink Atom Error)
  unfolding new_node deref append_to_existing_text
  node_before s parent i (append_node child) = ok (some child, s)
  node_before s parent zero (append_text more) =
      let (h, s') = new_node s (text more) in ok (some h, s')
  node_before s parent (suc i) (append_text more) = do
    p ← deref s parent
    prev ← expect (get_elem? p.children i)
    (merged, s') ← append_to_existing_text s prev more
    let (h, s'') = new_node s' (text more)
    if merged then ok (none, s') else ok (some h, s'')

  -- Out of its old parent, if it has one.
  unfoldable pub leave_parent : Sink Atom Error → Handle → Checked (Sink Atom Error)
  unfolding deref remove_from_parent
  leave_parent s child = do
    c ← deref s child
    if is_null c.parent then ok s else remove_from_parent s child

  unfoldable pub insert_child : Sink Atom Error → Handle → ℕ → Handle → Checked (Sink Atom Error)
  unfolding deref store
  insert_child s parent i child = do
    c ← deref s child
    let s1 = store s child (record c { parent = parent })
    p ← deref s1 parent
    children ← insert_at p.children i child
    ok (store s1 parent (record p { children = children }))

  unfoldable pub place : Sink Atom Error → Handle → ℕ → Option Handle → Checked (Sink Atom Error)
  unfolding leave_parent insert_child
  place s parent i none = ok s
  place s parent i (some child) = do s1 ← leave_parent s child; insert_child s1 parent i child

  -- `Err(child)` gives the child back.
  unfoldable pub append_before_sibling :
      Sink Atom Error
      → Handle
      → NodeOrText Handle
      → Checked (Option (NodeOrText Handle) × Sink Atom Error)
  unfolding get_parent_and_index node_before place
  append_before_sibling s sibling child = get_parent_and_index s sibling >>= λ found. elim found [
    | none ↦ ok (some child, s)
    | some at ↦
        node_before s at.0 at.1 child >>= λ new. place new.1 at.0 at.1 new.0 >>= λ s'. ok (none, s')
  ]

  unfoldable pub mark_script_already_started : Sink Atom Error → Handle → Sink Atom Error
  mark_script_already_started s node = s

module _ (a : Atoms) where
  has_name : List (Attribute a.Atom) → QualName a.Atom → Bool
  has_name [] name = false
  has_name (e ∷ es) name = if qual_eq a e.name name then true else has_name es name

  -- The attributes whose names are not there yet.
  unfoldable pub missing :
      List (Attribute a.Atom) → List (Attribute a.Atom) → List (Attribute a.Atom)
  unfolding has_name
  missing existing [] = []
  missing existing (at ∷ attrs) =
      let rest = missing existing attrs in if has_name existing at.name then rest else at ∷ rest

  unfoldable pub merge_attrs : NodeEnum a.Atom → List (Attribute a.Atom) → NodeEnum a.Atom
  unfolding missing
  merge_attrs (element name existing) attrs = element name (existing ++ missing existing attrs)
  merge_attrs kind attrs = kind

  unfoldable pub add_attrs_if_missing :
      {Error : Type 0}
      → Sink a.Atom Error
      → Handle
      → List (Attribute a.Atom)
      → Checked (Sink a.Atom Error)
  unfolding deref store merge_attrs
  add_attrs_if_missing s target attrs = do
    n ← deref s target
    ok (store s target (record n { node = merge_attrs n.node attrs }))
