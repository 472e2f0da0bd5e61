-- ===== src/Sink/Before.antt =====
-- src/sink/owned_dom.rs, `append_before_sibling`: a node is put in front of its new sibling.
use html.Prelude.{
  ok-injective, ℕ, suc, ◌+◌, ◌≤◌, ◌≡◌, ◌≢◌, refl, sym, ap, ◌∙◌, false, none, some, List, ◌∷◌, ◌++◌,
  ◌==◌, if◌then◌else◌, ok, length, length-append, arith, Bool-cases, bind-ok, if-taken, if-skipped,
  ==_refl,
}
use mathlib.Core.Logic.{◌⊎◌, inl, inr}
use html.TreeBuilder.Interface.{append_node}
use html.Sink.Store.{Handle, null, ptr, is_null, Sink, insert_at}
use html.Sink.Build.{leave_parent, node_before, place, append_before_sibling}
use html.Sink.Links.{same_refl, children_at, parent_at, deref-parent, IsLinked}
use html.Sink.Rewired.{IsLive, insert_child-Rewired}
use html.Sink.Family.{insert_at-middle, insert_at-Inserted, Rewired-attached}
use html.Sink.Moves.{
  parent-cases, get_parent_and_index-none, get_parent_and_index-Located,
  remove_from_parent-Detached,
}

other_parent : (i j : ℕ) → (j ≢ i) → (i == j) ≡ false
other_parent i j d = ground arith

length-middle :
    (front back : List Handle) (h : Handle)
    → length (front ++ h ∷ back) ≡ length front + suc (length back)
length-middle front back h = length-append front (h ∷ back)

-- One child may be missing.
shorter :
    (i j : ℕ) (children : Handle → List Handle) (front back : List Handle) (c : Handle)
    → children (ptr j) ≡ front ++ c ∷ back
    → length (children (ptr i)) ≤ suc (length (if i == j then front ++ back else children (ptr i)))
shorter i j children front back c e = elim (Bool-cases (i == j)) [
  | inl f ↦
      let g : i ≡ j = ground arith in
      rw f (rw g (rw e (omega (arith, length-middle front back c, length-append front back))))
  | inr f ↦ rw f (omega arith)
]

module _ {Atom Error : Type 0} (s : Sink Atom Error) (linked : IsLinked s) where
  -- A node out of its old parent, if it had one.
  record Left (c : Handle) (i : ℕ) : Type 0 where
    pub now : Sink Atom Error
    pub leaves : leave_parent s c ≡ ok now
    pub still_linked : IsLinked now
    pub orphan : parent_at now c ≡ null
    pub live_still : (x : Handle) → IsLive s x → IsLive now x
    pub elsewhere : parent_at s c ≢ ptr i → children_at now (ptr i) ≡ children_at s (ptr i)
    pub room :
        (front back : List Handle) (h : Handle)
        → children_at s (ptr i) ≡ front ++ h ∷ back
        → length front ≤ length (children_at now (ptr i))

  orphan-Left : (c : Handle) (i : ℕ) → IsLive s c → parent_at s c ≡ null → Left c i
  unfolding leave_parent
  orphan-Left c i (n, e) parent =
      let is : n.parent ≡ null = deref-parent s c n e ∙ parent in
      record {
        now = s;
        leaves = bind-ok _ e (if-taken (λ r. r ≡ ok s) _ (ap is_null is) refl);
        still_linked = linked;
        orphan = parent;
        live_still = λ x h. h;
        elsewhere = λ d. refl;
        room = λ front back h e. omega (arith, ap length e, length-middle front back h);
      }

  child-Left : (c : Handle) (i j : ℕ) → IsLive s c → parent_at s c ≡ ptr j → Left c i
  unfolding leave_parent
  child-Left c i j (n, e) parent =
      let is : n.parent ≡ ptr j = deref-parent s c n e ∙ parent in
      let gone = remove_from_parent-Detached s linked c j (n, e) parent in
      record {
        now = gone.now;
        leaves = bind-ok _ e (if-skipped (λ r. r ≡ ok gone.now) _ (ap is_null is) gone.removes);
        still_linked = gone.still_linked;
        orphan = gone.rewired.parent_now c ∙ rw (same_refl c) refl;
        live_still = gone.rewired.live_still;
        elsewhere = λ d.
            gone.rewired.children_now (ptr i)
            ∙ if-skipped (λ l. l ≡ children_at s (ptr i)) _
                (other_parent i j (λ f. d (parent ∙ ap ptr f))) refl;
        room = λ front back h e. omega (
          arith,
          ap length (gone.rewired.children_now (ptr i)),
          ap length e,
          length-middle front back h,
          shorter i j (children_at s) gone.front gone.back c gone.was,
        );
      }

  leave_parent-Left : (c : Handle) (i : ℕ) → IsLive s c → Left c i
  leave_parent-Left c i live = elim (parent-cases (parent_at s c)) [
    | inl e ↦ orphan-Left c i live e
    | inr (j, e) ↦ child-Left c i j live e
  ]

  -- In a sink in which a node has a parent just if it is once among the children there: to put a
  -- node before a sibling whose parent is a given node, append_before_sibling returns without a
  -- panic, keeps that relation, and makes the parent of the sibling the parent of the node. If
  -- the node was not a child of that parent before, it stands directly before the sibling, and
  -- the other children there are as before.
  pub append_before_sibling-Linked :
      (sibling c : Handle) (i : ℕ)
      → IsLive s sibling
      → IsLive s c
      → parent_at s sibling ≡ ptr i
      → (s' : Sink Atom Error) × (append_before_sibling s sibling (append_node c) ≡ ok (none, s'))
        × IsLinked s'
        × (parent_at s' c ≡ ptr i)
        × (parent_at s c ≢ ptr i
            → (front : List Handle) × (back : List Handle) × (children_at s (ptr i)
                ≡ front ++ sibling ∷ back)
              × (children_at s' (ptr i) ≡ front ++ c ∷ sibling ∷ back))
  unfolding append_before_sibling node_before place
  append_before_sibling-Linked sibling c i live_s live_c parent =
      let at = get_parent_and_index-Located s linked sibling i live_s parent in
      let front = at.found.front in
      let back = at.found.back in
      let free = leave_parent-Left c i live_c in
      let cs = children_at free.now (ptr i) in
      let into =
        insert_at-Inserted c cs (length front) (free.room front back sibling at.found.splits) in
      let (s', e, new) =
        insert_child-Rewired free.now (ptr i) c (length front) into.list
          (free.live_still (ptr i) at.live_parent) (free.live_still c live_c) into.inserts in
      (
        s',
        bind-ok _ at.finds (bind-ok _ (bind-ok _ free.leaves e) refl),
        Rewired-attached free.now s' i c into.list free.still_linked new free.orphan into.counts,
        new.parent_now c ∙ rw (same_refl c) refl,
        λ d. (
          front,
          back,
          at.found.splits,
          new.children_now (ptr i)
              ∙ (if-taken (λ l. l ≡ into.list) _ (==_refl i) refl
                  ∙ ok-injective (
                      sym into.inserts
                      ∙ (ap (λ l. insert_at l (length front) c) (free.elsewhere d ∙ at.found.splits)
                          ∙ insert_at-middle front (sibling ∷ back) c))),
        ),
      )

  -- In a sink in which a node has a parent just if it is once among the children there, and for
  -- two nodes that exist, append_before_sibling with a node does not panic. If the sibling has no
  -- parent, it gives the node back and leaves the sink alone. Otherwise it takes the node, makes
  -- the parent of the sibling its parent, and keeps the relation.
  pub append_before_sibling-cases :
      (sibling c : Handle)
      → IsLive s sibling
      → IsLive s c
      → ((parent_at s sibling ≡ null)
          × (append_before_sibling s sibling (append_node c) ≡ ok (some (append_node c), s)))
        ⊎ ((parent_at s sibling ≢ null)
            × ((s' : Sink Atom Error) × (append_before_sibling s sibling (append_node c)
                  ≡ ok (none, s'))
                × IsLinked s'
                × (parent_at s' c ≡ parent_at s sibling)))
  unfolding append_before_sibling
  append_before_sibling-cases sibling c live_s live_c = elim (parent-cases (parent_at s sibling)) [
    | inl e ↦ inl (e, bind-ok _ (get_parent_and_index-none s sibling live_s e) refl)
    | inr (i, e) ↦
        let (s', f, linked', parent, order) =
          append_before_sibling-Linked sibling c i live_s live_c e in
        inr (λ g. null_ptr i (sym g ∙ e), (s', f, linked', parent ∙ sym e))
  ]
    where
      null_ptr : (i : ℕ) → null ≢ ptr i
      null_ptr i e = ground (arith, e)
