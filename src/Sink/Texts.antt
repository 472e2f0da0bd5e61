-- ===== src/Sink/Texts.antt =====
-- src/sink/owned_dom.rs: nodes are made and texts are extended without a change to the links.
use html.Prelude.{
  ℕ, zero, suc, ◌≡◌, refl, sym, ap, ◌∙◌, Bool, none, some, List, [], ◌∷◌, ◌++◌, Text, ok, panic,
  length, get_elem?, bind-ok, expect,
}
use mathlib.Core.Logic.{inl, inr, ◌⊎◌}
use html.Sink.Common.{NodeEnum, document, doctype, text, comment, element}
use html.Sink.Store.{
  Handle, null, ptr, SquishyNode, new_squishy, Sink, deref, store, new_node, extend_text,
  append_to_existing_text,
}
use html.Sink.Links.{
  children_at, children_of, parent_of, parent_at, IsLinked, children_at-store, parent_at-store,
  children_kept, parent_kept,
}
use html.Sink.Rewired.{IsLive, store-IsLive}

-- A new element at the end of a vector.
module _ {A : Type 0} where
  get-new : (xs : List A) (y : A) → get_elem? (xs ++ y ∷ []) (length xs) ≡ some y
  get-new [] y = refl
  get-new (z ∷ xs) y = get-new xs y

  get-either :
      (xs : List A) (y : A) (i : ℕ)
      → (get_elem? (xs ++ y ∷ []) i ≡ get_elem? xs i)
        ⊎ ((get_elem? xs i ≡ none) × (get_elem? (xs ++ y ∷ []) i ≡ some y))
  get-either [] y zero = inr (refl, refl)
  get-either [] y (suc i) = inl refl
  get-either (z ∷ xs) y zero = inl refl
  get-either (z ∷ xs) y (suc i) = get-either xs y i

module _ {Atom Error : Type 0} (s : Sink Atom Error) where
  -- The links of two stores agree, and no node is gone.
  pub record SameLinks (s' : Sink Atom Error) : Type 0 where
    pub children_same : (x : Handle) → children_at s' x ≡ children_at s x
    pub parent_same : (x : Handle) → parent_at s' x ≡ parent_at s x
    pub live_still : (x : Handle) → IsLive s x → IsLive s' x

  pub SameLinks-Linked : (s' : Sink Atom Error) → SameLinks s' → IsLinked s → IsLinked s'
  SameLinks-Linked s' e linked i h =
      rw (e.children_same (ptr i)) (rw (e.parent_same h) (linked i h))

  kind_store-SameLinks :
      (h : Handle) (n : SquishyNode Atom) (kind : NodeEnum Atom)
      → deref s h ≡ ok n
      → SameLinks (store s h (record n { node = kind }))
  kind_store-SameLinks h n kind e =
      let m = record n { node = kind } in
      record {
        children_same = λ x. children_at-store s h n m x e ∙ children_kept s h n x e;
        parent_same = λ x. parent_at-store s h n m x e ∙ parent_kept s h n x e;
        live_still = store-IsLive s h n m e;
      }

  -- What a handle points to once there is a new node.
  deref-new_node :
      (kind : NodeEnum Atom) (x : Handle)
      → (deref (new_node s kind).1 x ≡ deref s x)
        ⊎ ((deref s x ≡ panic) × (deref (new_node s kind).1 x ≡ ok (new_squishy kind)))
  unfolding new_node deref
  deref-new_node kind null = inl refl
  deref-new_node kind (ptr i) = elim (get-either s.nodes (new_squishy kind) i) [
    | inl e ↦ inl (ap expect e)
    | inr (e, f) ↦ inr (ap expect e, ap expect f)
  ]

  pub new_node-SameLinks : (kind : NodeEnum Atom) → SameLinks (new_node s kind).1
  unfolding children_at children_of parent_at parent_of
  new_node-SameLinks kind = record {
    children_same = λ x. elim (deref-new_node kind x) [
      | inl e ↦ ap children_of e
      | inr (e, f) ↦ ap children_of f ∙ sym (ap children_of e)
    ];
    parent_same = λ x. elim (deref-new_node kind x) [
      | inl e ↦ ap parent_of e
      | inr (e, f) ↦ ap parent_of f ∙ sym (ap parent_of e)
    ];
    live_still = λ x h. elim (deref-new_node kind x) [
      | inl e ↦ (h.0, e ∙ h.1)
      | inr (e, f) ↦ (new_squishy kind, f)
    ];
  }

  pub new_node-live :
      (kind : NodeEnum Atom) → deref (new_node s kind).1 (new_node s kind).0 ≡ ok (new_squishy kind)
  unfolding new_node deref
  new_node-live kind = ap expect (get-new s.nodes (new_squishy kind))

  pub new_node-orphan :
      (kind : NodeEnum Atom) → parent_at (new_node s kind).1 (new_node s kind).0 ≡ null
  unfolding parent_at parent_of
  new_node-orphan kind = ap parent_of (new_node-live kind)

  -- Either the text of a node was extended, or nothing was done.
  pub record Extended (h : Handle) (more : Text) : Type 0 where
    pub merged : Bool
    pub now : Sink Atom Error
    pub extends : append_to_existing_text s h more ≡ ok (merged, now)
    pub same_links : SameLinks now

  refl-SameLinks : SameLinks s
  refl-SameLinks = record {
    children_same = λ x. refl;
    parent_same = λ x. refl;
    live_still = λ x h. h;
  }

  extend_text-SameLinks :
      (h : Handle) (n : SquishyNode Atom) (kind : NodeEnum Atom) (more : Text)
      → deref s h ≡ ok n
      → SameLinks (extend_text s h n kind more).1
  unfolding extend_text
  extend_text-SameLinks h n (text existing) more e =
      kind_store-SameLinks h n (text (existing ++ more)) e
  extend_text-SameLinks h n document more e = refl-SameLinks
  extend_text-SameLinks h n (doctype name public_id system_id) more e = refl-SameLinks
  extend_text-SameLinks h n (comment t) more e = refl-SameLinks
  extend_text-SameLinks h n (element name attrs) more e = refl-SameLinks

  pub append_to_existing_text-Extended : (h : Handle) (more : Text) → IsLive s h → Extended h more
  unfolding append_to_existing_text
  append_to_existing_text-Extended h more (n, e) = record {
    merged = (extend_text s h n n.node more).0;
    now = (extend_text s h n n.node more).1;
    extends = bind-ok _ e refl;
    same_links = extend_text-SameLinks h n n.node more e;
  }
