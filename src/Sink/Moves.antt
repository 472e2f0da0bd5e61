-- ===== src/Sink/Moves.antt =====
-- src/sink/owned_dom.rs: nodes are appended, removed and moved without a panic, and parents and
-- children stay in step.
use html.Prelude.{
  get_elem?, remove_at, ℕ, ◌<◌, ◌≡◌, refl, sym, ap, ◌∙◌, subst, false, none, some, List, [], ◌∷◌,
  ◌++◌, if◌then◌else◌, ok, length, arith, expect, bind-ok,
}
use mathlib.Core.Logic.{inl, inr, ◌⊎◌}
use html.Sink.Store.{
  Handle, null, ptr, same, is_null, SquishyNode, Sink, deref, index_of, index_in,
  get_parent_and_index, push_child, remove_from_parent,
}
use html.Sink.Links.{
  same_refl, count, children_at, parent_at, deref-children, deref-parent, children_at-live,
  IsLinked,
}
use html.Sink.Rewired.{IsLive, Rewired, push_child-Rewired, detach-Rewired}
use html.Sink.Family.{
  Found, index_of-Found, count-append, count-middle, get_elem?-middle, remove_at-middle,
  Rewired-attached, Rewired-detached,
}

pub parent-cases : (h : Handle) → (h ≡ null) ⊎ ((i : ℕ) × (h ≡ ptr i))
parent-cases null = inl refl
parent-cases (ptr i) = inr (i, refl)

module _ {Atom Error : Type 0} (s : Sink Atom Error) where
  pub get_parent_and_index-none :
      (c : Handle) → IsLive s c → parent_at s c ≡ null → get_parent_and_index s c ≡ ok none
  unfolding get_parent_and_index
  get_parent_and_index-none c (n, e) parent =
      let is : n.parent ≡ null = deref-parent s c n e ∙ parent in bind-ok _ e (rw is refl)

module _ {Atom Error : Type 0} (s : Sink Atom Error) (linked : IsLinked s) where
  pub push_child-Linked :
      (i : ℕ) (c : Handle)
      → IsLive s (ptr i)
      → IsLive s c
      → parent_at s c ≡ null
      → (s' : Sink Atom Error) × (push_child s (ptr i) c ≡ ok s')
        × IsLinked s'
        × Rewired s s' (ptr i) (children_at s (ptr i) ++ c ∷ []) c (ptr i)
  push_child-Linked i c live_p live_c orphan =
      let (s', e, new) = push_child-Rewired s (ptr i) c live_p live_c orphan in
      let cs = children_at s (ptr i) in
      (
        s',
        e,
        Rewired-attached s s' i c (cs ++ c ∷ []) linked new orphan
            (λ h. omega (arith, count-append h cs (c ∷ []))),
        new,
      )

  -- Where a node is, for one that has a parent.
  pub record Located (c : Handle) (i : ℕ) : Type 0 where
    pub found : Found c (children_at s (ptr i))
    pub live_parent : IsLive s (ptr i)
    pub finds : get_parent_and_index s c ≡ ok (some (ptr i, length found.front))

  index_in-finds :
      (c : Handle) (i : ℕ) (found : Found c (children_at s (ptr i))) (p : SquishyNode Atom)
      → deref s (ptr i) ≡ ok p
      → index_in s (ptr i) c ≡ ok (some (ptr i, length found.front))
  unfolding index_in
  index_in-finds c i found p f =
      let here : expect (index_of c p.children) ≡ ok (length found.front) =
        ap (λ l. expect (index_of c l)) (deref-children s (ptr i) p f) ∙ ap expect found.position in
      bind-ok _ f (bind-ok _ here refl)

  pub get_parent_and_index-Located :
      (c : Handle) (i : ℕ) → IsLive s c → parent_at s c ≡ ptr i → Located c i
  unfolding get_parent_and_index
  get_parent_and_index-Located c i (n, e) parent =
      let has : 0 < count c (children_at s (ptr i)) =
        ground (arith, linked i c, parent, same_refl (ptr i)) in
      let found = index_of-Found c (children_at s (ptr i)) has in
      let (p, f) = children_at-live s (ptr i) c has in
      let is : n.parent ≡ ptr i = deref-parent s c n e ∙ parent in
      record {
        found = found;
        live_parent = (p, f);
        finds = bind-ok _ e (
            subst
              (λ h.
                (if is_null h then ok none else index_in s h c)
                ≡ ok (some (ptr i, length found.front)))
              (sym is) (index_in-finds c i found p f));
      }

  -- A node that has left its parent.
  pub record Detached (c : Handle) (i : ℕ) : Type 0 where
    pub now : Sink Atom Error
    pub front : List Handle
    pub back : List Handle
    pub was : children_at s (ptr i) ≡ front ++ c ∷ back
    pub removes : remove_from_parent s c ≡ ok now
    pub still_linked : IsLinked now
    pub rewired : Rewired s now (ptr i) (front ++ back) c null

  pub remove_from_parent-Detached :
      (c : Handle) (i : ℕ) → IsLive s c → parent_at s c ≡ ptr i → Detached c i
  unfolding remove_from_parent
  remove_from_parent-Detached c i live parent =
      let at = get_parent_and_index-Located c i live parent in
      let front = at.found.front in
      let back = at.found.back in
      let there : get_elem? (children_at s (ptr i)) (length front) ≡ some c =
        ap (λ l. get_elem? l (length front)) at.found.splits ∙ get_elem?-middle front back c in
      let (now, e, new) = detach-Rewired s (ptr i) c c (length front) at.live_parent live there in
      let left : remove_at (children_at s (ptr i)) (length front) ≡ front ++ back =
        ap (λ l. remove_at l (length front)) at.found.splits ∙ remove_at-middle front back c in
      let new' = subst (λ l. Rewired s now (ptr i) l c null) left new in
      record {
        now = now;
        front = front;
        back = back;
        was = at.found.splits;
        removes = bind-ok _ at.finds e;
        still_linked =
            Rewired-detached s now i c (front ++ back) linked new' parent
              (λ h. sym (ap (count h) at.found.splits ∙ count-middle h c front back));
        rewired = new';
      }

  -- In a sink in which a node has a parent just if it is once among the children there: for a
  -- node that exists, remove_from_parent returns without a panic, keeps that relation, leaves the
  -- node without a parent, and changes the parent of no other node.
  pub remove_from_parent-Linked :
      (c : Handle)
      → IsLive s c
      → (s' : Sink Atom Error) × (remove_from_parent s c ≡ ok s')
        × IsLinked s'
        × (parent_at s' c ≡ null)
        × ((x : Handle) → same x c ≡ false → parent_at s' x ≡ parent_at s x)
  unfolding remove_from_parent
  remove_from_parent-Linked c live = elim (parent-cases (parent_at s c)) [
    | inl e ↦ (s, bind-ok _ (get_parent_and_index-none s c live e) refl, linked, e, λ x d. refl)
    | inr (i, e) ↦
        let gone = remove_from_parent-Detached c i live e in
        (
          gone.now,
          gone.removes,
          gone.still_linked,
          gone.rewired.parent_now c ∙ rw (same_refl c) refl,
          λ x d. gone.rewired.parent_now x ∙ rw d refl,
        )
  ]
