-- ===== src/Sink/Owned/Markup.antt =====
-- src/sink/owned_dom.rs and src/serialize/mod.rs: the markup of a tree, and that serializing the
-- tree writes it.
use html.Prelude.{
  ◌≡◌, refl, Bool, true, false, none, List, [], ◌∷◌, ◌++◌, if◌then◌else◌, Text, All, ◌∙◌, subst,
  arith, append-nil,
}
use html.Tokenizer.Interface.{QualName, Attribute}
use html.Names.{Atoms, is_html, no_namespace}
use html.Serialize.{Output, SerializeOpts, ElemInfo, Method, new, ◌>>◌, start_elem, end_elem}
use html.Serialize.Markup.{
  start_text, end_text, is_void, inner_text, comment_text, doctype_text, opened,
}
use html.Serialize.Writes.{IsWriter, Ends, Steps, >>-Steps, done-Steps}
use html.Serialize.Tags.{
  noted, start_elem-Steps, start_elem-skipped, end_elem-Steps, end_elem-skipped, write_text-Steps,
  write_comment-Steps, write_doctype-Steps,
}
use html.Sink.Common.{document, doctype, text, comment, element}
use html.Sink.Owned.{
  Node, Nodes, node, no_nodes, and_node, serialize_as, serialize_node, serialize_nodes, serialize,
}

module _ (a : Atoms) where
  -- The tree builder makes only elements of HTML with plain attributes, below the document.
  unfoldable mutual
    pub IsTree : Node a.Atom → Type 0
    IsTree (node (element name attrs) children) =
        (is_html a name ≡ true)
        × All (λ at. no_namespace a at.name ≡ true) attrs
        × AreTrees children
    IsTree (node document children) = ⊥
    IsTree (node kind children) = Unit

    pub AreTrees : Nodes a.Atom → Type 0
    AreTrees no_nodes = Unit
    AreTrees (and_node child rest) = IsTree child × AreTrees rest

  -- What is known of an element once a child has been written.
  unfoldable pub after : ElemInfo a.Atom → Node a.Atom → ElemInfo a.Atom
  after info (node (element name attrs) children) =
      if info.ignore_children then info else noted info
  after info (node kind children) = info

  unfoldable pub after_all : ElemInfo a.Atom → Nodes a.Atom → ElemInfo a.Atom
  unfolding after
  after_all info no_nodes = info
  after_all info (and_node child rest) = after_all (after info child) rest

  -- The tags around the content of an element; an element inside a void one has no tags.
  unfoldable pub tagged : Bool → QualName a.Atom → List (Attribute a.Atom) → (Bool → Text) → Text
  tagged true name attrs inner = inner true
  tagged false name attrs inner =
      start_text a name attrs
      ++ (inner (is_void a name) ++ (if is_void a name then [] else end_text a name))

  module _ (opts : SerializeOpts) where
    unfoldable mutual
      unfolding tagged after

      pub markup : ElemInfo a.Atom → Node a.Atom → Text
      markup info (node (element name attrs) children) =
          tagged info.ignore_children name attrs (λ skips. markups (opened a name skips) children)
      markup info (node (text t) children) = inner_text a opts info t
      markup info (node (comment t) children) = comment_text t
      markup info (node (doctype name public_id system_id) children) = doctype_text name
      markup info (node document children) = []

      pub markups : ElemInfo a.Atom → Nodes a.Atom → Text
      markups info no_nodes = []
      markups info (and_node child rest) = markup info child ++ markups (after info child) rest

  -- The entry at the bottom of the stack, and the markup inside a node.
  abbrev pub outermost : ElemInfo a.Atom
  outermost = record { html_name = none; ignore_children = false; processed_first_child = false }

  unfoldable pub content : SerializeOpts → Node a.Atom → Text
  unfolding markups
  content opts (node (element name attrs) children) = markups opts outermost children
  content opts (node document children) = markups opts outermost children
  content opts (node kind children) = []

  unfoldable pub IsRoot : Node a.Atom → Type 0
  unfolding AreTrees
  IsRoot (node (element name attrs) children) = AreTrees children
  IsRoot (node document children) = AreTrees children
  IsRoot (node kind children) = Unit

  -- The entry that is left on the stack.
  unfoldable pub final : Node a.Atom → ElemInfo a.Atom
  unfolding after_all
  final (node (element name attrs) children) = after_all outermost children
  final (node document children) = after_all outermost children
  final (node kind children) = outermost

  after-ignores :
      (info : ElemInfo a.Atom) (n : Node a.Atom)
      → (after info n).ignore_children ≡ info.ignore_children
  unfolding after
  after-ignores info (node (element name attrs) children) = ground arith
  after-ignores info (node document children) = refl
  after-ignores info (node (text t) children) = refl
  after-ignores info (node (comment t) children) = refl
  after-ignores info (node (doctype n p s) children) = refl

  after_all-ignores :
      (info : ElemInfo a.Atom) (ns : Nodes a.Atom)
      → (after_all info ns).ignore_children ≡ info.ignore_children
  unfolding after_all
  after_all-ignores info no_nodes = refl
  after_all-ignores info (and_node child rest) =
      after_all-ignores (after info child) rest ∙ after-ignores info child

  after_all-opened :
      (name : QualName a.Atom) (skips : Bool) (ns : Nodes a.Atom)
      → (after_all (opened a name skips) ns).ignore_children ≡ skips
  unfolding opened
  after_all-opened name skips ns = after_all-ignores (opened a name skips) ns

module _ {o : Output} (a : Atoms) {Has : o.Writer → Text → Type 0}
    {Failed : o.Writer → o.IoError → Type 0} (writer : IsWriter o Has Failed)
    (opts : SerializeOpts) where
  end-Steps :
      (skips : Bool) (info : ElemInfo a.Atom) {stack : List (ElemInfo a.Atom)}
      (name : QualName a.Atom)
      → info.ignore_children ≡ skips
      → Steps o a Has Failed opts
          (info ∷ stack)
          stack
          (if skips then [] else end_text a name)
          (end_elem o a name)
  end-Steps true info name e = end_elem-skipped writer name e
  end-Steps false info name e = end_elem-Steps writer name e

  -- The content of an element between its tags.
  element-Steps :
      (info : ElemInfo a.Atom) (stack : List (ElemInfo a.Atom)) (name : QualName a.Atom)
      (attrs : List (Attribute a.Atom)) (b : Bool) (inner : Bool → Text)
      (left : Bool → ElemInfo a.Atom) (body : Method o a)
      → is_html a name ≡ true
      → All (λ at. no_namespace a at.name ≡ true) attrs
      → info.ignore_children ≡ b
      → ((skips : Bool) → (left skips).ignore_children ≡ skips)
      → ((skips : Bool) (below : List (ElemInfo a.Atom))
          → Steps o a Has Failed opts
              (opened a name skips ∷ below)
              (left skips ∷ below)
              (inner skips)
              body)
      → Steps o a Has Failed opts
          (info ∷ stack)
          ((if b then info else noted info) ∷ stack)
          (tagged a b name attrs inner)
          (start_elem o a name attrs >> body >> end_elem o a name)
  unfolding tagged
  element-Steps info stack name attrs true inner left body html plain e keeps steps =
      subst
        (λ t.
          Steps o a Has Failed opts (info ∷ stack) (info ∷ stack) t
            (start_elem o a name attrs >> body >> end_elem o a name))
        (append-nil (inner true))
        (>>-Steps (start_elem-skipped writer name attrs html e)
          (>>-Steps (steps true (info ∷ stack)) (end-Steps true (left true) name (keeps true))))
  element-Steps info stack name attrs false inner left body html plain e keeps steps =
      >>-Steps (start_elem-Steps writer name attrs html plain e) (
        >>-Steps (steps (is_void a name) (noted info ∷ stack))
          (end-Steps (is_void a name) (left (is_void a name)) name (keeps (is_void a name))))

  mutual
    unfolding IsTree markup serialize_node serialize_as after after_all

    serialize_node-Steps :
        (info : ElemInfo a.Atom) (stack : List (ElemInfo a.Atom)) (n : Node a.Atom)
        → IsTree a n
        → Steps o a Has Failed opts
            (info ∷ stack)
            (after a info n ∷ stack)
            (markup a opts info n)
            (serialize_node o a n true)
    serialize_node-Steps info stack (node (element name attrs) children) (html, plain, trees) =
        element-Steps info stack name attrs info.ignore_children
          (λ skips. markups a opts (opened a name skips) children)
          (λ skips. after_all a (opened a name skips) children) (serialize_nodes o a children) html
          plain refl (λ skips. after_all-opened a name skips children)
          (λ skips below. serialize_nodes-Steps (opened a name skips) below children trees)
    serialize_node-Steps info stack (node document children) h = absurd h
    serialize_node-Steps info stack (node (text t) children) h = write_text-Steps writer t
    serialize_node-Steps info stack (node (comment t) children) h = write_comment-Steps writer t
    serialize_node-Steps info stack (node (doctype name p s) children) h =
        write_doctype-Steps writer name

    serialize_nodes-Steps :
        (info : ElemInfo a.Atom) (stack : List (ElemInfo a.Atom)) (ns : Nodes a.Atom)
        → AreTrees a ns
        → Steps o a Has Failed opts
            (info ∷ stack)
            (after_all a info ns ∷ stack)
            (markups a opts info ns)
            (serialize_nodes o a ns)
    serialize_nodes-Steps info stack no_nodes h = done-Steps
    serialize_nodes-Steps info stack (and_node child rest) (h, k) =
        >>-Steps (serialize_node-Steps info stack child h)
          (serialize_nodes-Steps (after a info child) stack rest k)

  -- For a writer that either puts a text behind what it has or fails: serializing a tree whose
  -- elements below the root are HTML elements with plain attributes, and that has no document
  -- below the root, does not panic. It puts the markup of the content of the root behind what the
  -- writer has and leaves one entry on the stack, or it ends with an error, in the state of the
  -- write that failed. In the markup a void element has no end tag, and elements inside it have
  -- no tags. A text is literal in style, script, xmp, iframe, noembed, noframes and plaintext,
  -- and in noscript if scripting is enabled, and escaped elsewhere. A text with a line feed at
  -- its start gets another one in front in pre, textarea and listing, if no element came before
  -- it there.
  pub serialize-Ends :
      (w : o.Writer) (root : Node a.Atom) (front : Text)
      → IsRoot a root
      → Has w front
      → Ends o a Has Failed opts
          (final a root ∷ [])
          (front ++ content a opts root)
          (serialize o a w root opts)
  unfolding IsRoot content final serialize serialize_node serialize_as new
  serialize-Ends w (node (element name attrs) children) front h at =
      subst
        (λ t.
          Ends o a Has Failed opts (after_all a (outermost a) children ∷ []) (front ++ t)
            (serialize o a w (node (element name attrs) children) opts))
        (append-nil (markups a opts (outermost a) children))
        ((>>-Steps done-Steps
            (>>-Steps (serialize_nodes-Steps (outermost a) [] children h) done-Steps)).run
          front w at)
  serialize-Ends w (node document children) front h at =
      (serialize_nodes-Steps (outermost a) [] children h).run front w at
  serialize-Ends w (node (doctype n p s) children) front h at = done-Steps.run front w at
  serialize-Ends w (node (text t) children) front h at = done-Steps.run front w at
  serialize-Ends w (node (comment t) children) front h at = done-Steps.run front w at
