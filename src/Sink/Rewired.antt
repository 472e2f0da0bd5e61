-- ===== src/Sink/Rewired.antt =====
-- src/sink/owned_dom.rs: the two writes that link a node to a parent, or take it out.
use html.Prelude.{
  get_elem?, expect, some, remove_at, ℕ, ◌≡◌, refl, ap, ◌∙◌, List, [], ◌∷◌, ◌++◌, if◌then◌else◌, ok,
  panic, bind-ok, if-taken, Bool-cases,
}
use mathlib.Core.Logic.{inl, inr}
use html.Sink.Store.{
  Handle, null, same, is_null, SquishyNode, Sink, insert_at, deref, store, push_child, detach,
}
use html.Sink.Build.{insert_child}
use html.Sink.Links.{
  children_at, parent_at, deref-children, deref-parent, deref-store, children_at-store,
  parent_at-store, children_at-parent_store, parent_at-children_store,
}

module _ {Atom Error : Type 0} where
  -- A handle that points to a node.
  abbrev pub IsLive : Sink Atom Error → Handle → Type 0
  IsLive s h = (n : SquishyNode Atom) × (deref s h ≡ ok n)

  -- One list of children and one parent have been written.
  pub record Rewired (s s' : Sink Atom Error) (p : Handle) (cs : List Handle) (c q : Handle)
      : Type 0 where
    pub children_now : (x : Handle) → children_at s' x ≡ (if same x p then cs else children_at s x)
    pub parent_now : (x : Handle) → parent_at s' x ≡ (if same x c then q else parent_at s x)
    pub live_still : (x : Handle) → IsLive s x → IsLive s' x

  pub store-IsLive :
      (s : Sink Atom Error) (h : Handle) (n m : SquishyNode Atom)
      → deref s h ≡ ok n
      → (x : Handle) → IsLive s x
      → IsLive (store s h m) x
  store-IsLive s h n m e x (k, f) = elim (Bool-cases (same x h)) [
    | inl y ↦ (m, deref-store s h n m x e ∙ rw y refl)
    | inr y ↦ (k, deref-store s h n m x e ∙ rw y f)
  ]

  -- First the children of p, then the parent of c.
  children_first :
      (s : Sink Atom Error) (p c q : Handle) (cs : List Handle) (np nc : SquishyNode Atom)
      → deref s p ≡ ok np
      → deref (store s p (record np { children = cs })) c ≡ ok nc
      → Rewired s
          (store (store s p (record np { children = cs })) c (record nc { parent = q }))
          p
          cs
          c
          q
  children_first s p c q cs np nc e f =
      let m = record np { children = cs } in
      let s1 = store s p m in
      let k = record nc { parent = q } in
      record {
        children_now = λ x. children_at-parent_store s1 c nc q x f ∙ children_at-store s p np m x e;
        parent_now = λ x.
            parent_at-store s1 c nc k x f
            ∙ ap (λ h. if same x c then q else h) (parent_at-children_store s p np cs x e);
        live_still = λ x h. store-IsLive s1 c nc k f x (store-IsLive s p np m e x h);
      }

  -- First the parent of c, then the children of p.
  parent_first :
      (s : Sink Atom Error) (p c q : Handle) (cs : List Handle) (np nc : SquishyNode Atom)
      → deref s c ≡ ok nc
      → deref (store s c (record nc { parent = q })) p ≡ ok np
      → Rewired s
          (store (store s c (record nc { parent = q })) p (record np { children = cs }))
          p
          cs
          c
          q
  parent_first s p c q cs np nc e f =
      let k = record nc { parent = q } in
      let s1 = store s c k in
      let m = record np { children = cs } in
      record {
        children_now = λ x.
            children_at-store s1 p np m x f
            ∙ ap (λ l. if same x p then cs else l) (children_at-parent_store s c nc q x e);
        parent_now = λ x. parent_at-children_store s1 p np cs x f ∙ parent_at-store s c nc k x e;
        live_still = λ x h. store-IsLive s1 p np m f x (store-IsLive s c nc k e x h);
      }

  pub push_child-Rewired :
      (s : Sink Atom Error) (p c : Handle)
      → IsLive s p
      → IsLive s c
      → parent_at s c ≡ null
      → (s' : Sink Atom Error) × (push_child s p c ≡ ok s')
        × Rewired s s' p (children_at s p ++ c ∷ []) c p
  unfolding push_child
  push_child-Rewired s p c (np, e) live orphan =
      let cs = np.children ++ c ∷ [] in
      let m = record np { children = cs } in
      let (nc, f) = store-IsLive s p np m e c live in
      let free : nc.parent ≡ null =
        deref-parent (store s p m) c nc f ∙ (parent_at-children_store s p np cs c e ∙ orphan) in
      (
        store (store s p m) c (record nc { parent = p }),
        bind-ok _ e (
            bind-ok _ f (
              if-taken (λ r. r ≡ ok (store (store s p m) c (record nc { parent = p }))) panic
                (ap is_null free) refl)),
        rw⁻¹ (deref-children s p np e) (children_first s p c p cs np nc e f),
      )

  pub detach-Rewired :
      (s : Sink Atom Error) (p c h : Handle) (i : ℕ)
      → IsLive s p
      → IsLive s c
      → get_elem? (children_at s p) i ≡ some h
      → (s' : Sink Atom Error) × (detach s c p i ≡ ok s')
        × Rewired s s' p (remove_at (children_at s p) i) c null
  unfolding detach
  detach-Rewired s p c h i (np, e) live there =
      let cs = remove_at np.children i in
      let m = record np { children = cs } in
      let (nc, f) = store-IsLive s p np m e c live in
      let found : expect (get_elem? np.children i) ≡ ok h =
        ap (λ l. expect (get_elem? l i)) (deref-children s p np e) ∙ ap expect there in
      (
        store (store s p m) c (record nc { parent = null }),
        bind-ok _ e (bind-ok _ found (bind-ok _ f refl)),
        rw⁻¹ (deref-children s p np e) (children_first s p c null cs np nc e f),
      )

  pub insert_child-Rewired :
      (s : Sink Atom Error) (p c : Handle) (i : ℕ) (cs : List Handle)
      → IsLive s p
      → IsLive s c
      → insert_at (children_at s p) i c ≡ ok cs
      → (s' : Sink Atom Error) × (insert_child s p i c ≡ ok s') × Rewired s s' p cs c p
  unfolding insert_child
  insert_child-Rewired s p c i cs live (nc, e) into =
      let k = record nc { parent = p } in
      let (np, f) = store-IsLive s c nc k e p live in
      let there : np.children ≡ children_at s p =
        deref-children (store s c k) p np f ∙ children_at-parent_store s c nc p p e in
      (
        store (store s c k) p (record np { children = cs }),
        bind-ok _ e (bind-ok _ f (bind-ok _ (ap (λ l. insert_at l i c) there ∙ into) refl)),
        parent_first s p c p cs np nc e f,
      )
