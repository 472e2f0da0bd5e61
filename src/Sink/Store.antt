-- ===== src/Sink/Store.antt =====
-- src/sink/owned_dom.rs: the nodes while the document is built. A pointer is an index into the
-- vector of all nodes; to follow the null pointer is `panic`.
use html.Prelude.{
  ℕ, zero, suc, Bool, true, false, Option, none, some, List, [], ◌∷◌, ◌++◌, ◌==◌, if◌then◌else◌,
  Text, Checked, ok, panic, ◌>>=◌, expect, length, get_elem?, remove_at, last?,
}
use html.TreeBuilder.Interface.{QuirksMode, no_quirks, NodeOrText, append_node, append_text}
use html.Sink.Common.{NodeEnum, document, text}

pub data Handle : Type 0 where
  null : Handle
  ptr : ℕ → Handle

-- `PartialEq for Handle`.
abbrev pub same : Handle → Handle → Bool
same null null = true
same (ptr i) (ptr j) = i == j
same _ _ = false

abbrev pub is_null : Handle → Bool
is_null null = true
is_null (ptr i) = false

pub record SquishyNode (Atom : Type 0) : Type 0 where
  pub node : NodeEnum Atom
  pub parent : Handle
  pub children : List Handle

-- `SquishyNode::new`.
abbrev pub new_squishy : {Atom : Type 0} → NodeEnum Atom → SquishyNode Atom
new_squishy node = record { node = node; parent = null; children = [] }

pub record Sink (Atom Error : Type 0) : Type 0 where
  pub nodes : List (SquishyNode Atom)
  pub document : Handle
  pub errors : List Error
  pub quirks_mode : QuirksMode

-- Positions in a vector.
module _ {A : Type 0} where
  abbrev pub set_at : List A → ℕ → A → List A
  set_at [] i y = []
  set_at (x ∷ xs) zero y = y ∷ xs
  set_at (x ∷ xs) (suc i) y = x ∷ set_at xs i y

  -- `Vec::insert`, which panics behind the end.
  abbrev pub insert_at : List A → ℕ → A → Checked (List A)
  insert_at xs zero y = ok (y ∷ xs)
  insert_at [] (suc i) y = panic
  insert_at (x ∷ xs) (suc i) y = do rest ← insert_at xs i y; ok (x ∷ rest)

-- The position of a handle, `enumerate().find(...)`.
abbrev pub index_of : Handle → List Handle → Option ℕ
index_of h [] = none
index_of h (x ∷ xs) =
    if same x h then some 0 else elim (index_of h xs) [ none ↦ none | some i ↦ some (suc i) ]

module _ {Atom Error : Type 0} where
  unfoldable pub deref : Sink Atom Error → Handle → Checked (SquishyNode Atom)
  deref s null = panic
  deref s (ptr i) = expect (get_elem? s.nodes i)

  -- A write through a handle.
  unfoldable pub store : Sink Atom Error → Handle → SquishyNode Atom → Sink Atom Error
  store s null n = s
  store s (ptr i) n = record s { nodes = set_at s.nodes i n }

  unfoldable pub new_node : Sink Atom Error → NodeEnum Atom → Handle × Sink Atom Error
  new_node s node = (ptr (length s.nodes), record s { nodes = s.nodes ++ new_squishy node ∷ [] })

  -- The function `append`.
  unfoldable pub push_child : Sink Atom Error → Handle → Handle → Checked (Sink Atom Error)
  unfolding deref store
  push_child s new_parent child = do
    p ← deref s new_parent
    let s1 = store s new_parent (record p { children = p.children ++ child ∷ [] })
    c ← deref s1 child
    if is_null c.parent then ok (store s1 child (record c { parent = new_parent })) else panic

  unfoldable pub index_in : Sink Atom Error → Handle → Handle → Checked (Option (Handle × ℕ))
  unfolding deref
  index_in s parent to_find = do
    p ← deref s parent
    i ← expect (index_of to_find p.children)
    ok (some (parent, i))

  unfoldable pub get_parent_and_index : Sink Atom Error → Handle → Checked (Option (Handle × ℕ))
  unfolding deref index_in
  get_parent_and_index s child = do
    c ← deref s child
    if is_null c.parent then ok none else index_in s c.parent child

  -- The match of `append_to_existing_text`.
  unfoldable pub extend_text :
      Sink Atom Error → Handle → SquishyNode Atom → NodeEnum Atom → Text → Bool × Sink Atom Error
  unfolding store
  extend_text s prev n (text existing) more =
      (true, store s prev (record n { node = text (existing ++ more) }))
  extend_text s prev n kind more = (false, s)

  unfoldable pub append_to_existing_text :
      Sink Atom Error → Handle → Text → Checked (Bool × Sink Atom Error)
  unfolding deref extend_text
  append_to_existing_text s prev more = do n ← deref s prev; ok (extend_text s prev n n.node more)

  -- `Default for Sink`.
  unfoldable pub new_sink : Sink Atom Error
  unfolding new_node
  new_sink =
      let (root, s) =
        new_node (record { nodes = []; document = null; errors = []; quirks_mode = no_quirks })
          document in
      record s { document = root }

  unfoldable pub append_new : Sink Atom Error → Handle → NodeEnum Atom → Checked (Sink Atom Error)
  unfolding push_child new_node
  append_new s parent node = let (h, s') = new_node s node in push_child s' parent h

  -- The text that is appended where the last child is looked at first.
  unfoldable pub append_text_after :
      Sink Atom Error → Option Handle → Text → Checked (Bool × Sink Atom Error)
  unfolding append_to_existing_text
  append_text_after s none more = ok (false, s)
  append_text_after s (some h) more = append_to_existing_text s h more

  unfoldable pub append : Sink Atom Error → Handle → NodeOrText Handle → Checked (Sink Atom Error)
  unfolding deref append_text_after append_new push_child
  append s parent (append_node child) = push_child s parent child
  append s parent (append_text more) = do
    p ← deref s parent
    (merged, s') ← append_text_after s (last? p.children) more
    if merged then ok s' else append_new s' parent (text more)

  -- The two writes of `remove_from_parent`, for a node at that position.
  unfoldable pub detach : Sink Atom Error → Handle → Handle → ℕ → Checked (Sink Atom Error)
  unfolding deref store
  detach s target parent i = do
    p ← deref s parent
    removed ← expect (get_elem? p.children i)
    let s1 = store s parent (record p { children = remove_at p.children i })
    c ← deref s1 target
    ok (store s1 target (record c { parent = null }))

  unfoldable pub remove_from_parent : Sink Atom Error → Handle → Checked (Sink Atom Error)
  unfolding get_parent_and_index detach
  remove_from_parent s target = get_parent_and_index s target >>= λ found. elim found [
    | none ↦ ok s
    | some at ↦ detach s target at.0 at.1
  ]
