-- ===== src/Sink/Append.antt =====
-- src/sink/owned_dom.rs, `append`, and `append_before_sibling` without a parent.
use html.Prelude.{
  last?, ℕ, zero, suc, ◌<◌, ◌≡◌, refl, ap, Bool, true, false, Option, none, some, List, [], ◌∷◌,
  if◌then◌else◌, Text, ok, ◌>>=◌, arith, bind-ok, Checked-cases,
}
use mathlib.Core.Logic.{inl, inr}
use html.TreeBuilder.Interface.{NodeOrText, append_node, append_text}
use html.Sink.Common.{NodeEnum, text}
use html.Sink.Store.{
  new_sink, Handle, null, ptr, same, Sink, deref, new_node, append_text_after, append_new, append,
}
use html.Sink.Links.{
  same_refl, count, children_of, children_at, parent_of, parent_at, deref-children, IsLinked,
}
use html.Sink.Rewired.{IsLive}
use html.Sink.Moves.{push_child-Linked}
use html.Sink.Texts.{
  SameLinks-Linked, new_node-SameLinks, new_node-live, new_node-orphan,
  append_to_existing_text-Extended,
}

last?-count : (xs : List Handle) (h : Handle) → last? xs ≡ some h → 0 < count h xs
last?-count [] h e = ground arith
last?-count (x ∷ []) h e = let f : x ≡ h = cc in ground (arith, ap (same x) f, same_refl x)
last?-count (x ∷ (y ∷ xs)) h e = omega (arith, last?-count (y ∷ xs) h e)

module _ {Atom Error : Type 0} where
  -- What a caller may append: a text, or a node without a parent.
  abbrev pub IsLoose : Sink Atom Error → NodeOrText Handle → Type 0
  IsLoose s (append_node c) = IsLive s c × (parent_at s c ≡ null)
  IsLoose s (append_text more) = Unit

  append_new-Linked :
      (s : Sink Atom Error)
      → IsLinked s
      → (i : ℕ) (kind : NodeEnum Atom) → IsLive s (ptr i)
      → (s' : Sink Atom Error) × (append_new s (ptr i) kind ≡ ok s') × IsLinked s'
  unfolding append_new
  append_new-Linked s linked i kind live =
      let fresh = new_node-SameLinks s kind in
      let (s', e, linked', new) =
        push_child-Linked (new_node s kind).1 (SameLinks-Linked s (new_node s kind).1 fresh linked)
          i (new_node s kind).0 (fresh.live_still (ptr i) live) (_, new_node-live s kind)
          (new_node-orphan s kind) in
      (s', e, linked')

  child-IsLive :
      (s : Sink Atom Error)
      → IsLinked s
      → (i : ℕ) (h : Handle) → 0 < count h (children_at s (ptr i))
      → IsLive s h
  unfolding parent_at parent_of
  child-IsLive s linked i h has = elim (Checked-cases (deref s h)) [
    | inl e ↦ e
    | inr e ↦ absurd (ground (arith, linked i h, has, e))
  ]

  append_text-Linked :
      (s : Sink Atom Error)
      → IsLinked s
      → (i : ℕ) (more : Text) (last : Option Handle) → IsLive s (ptr i)
      → ((h : Handle) → last ≡ some h → IsLive s h)
      → (s' : Sink Atom Error) × ((append_text_after s last more >>= λ r.
            if r.0 then ok r.1 else append_new r.1 (ptr i) (text more))
          ≡ ok s')
        × IsLinked s'
  unfolding append_text_after
  append_text-Linked s linked i more none live lives = append_new-Linked s linked i (text more) live
  append_text-Linked s linked i more (some h) live lives =
      let ext = append_to_existing_text-Extended s h more (lives h refl) in
      let linked' = SameLinks-Linked s ext.now ext.same_links linked in
      let (s', e, k) = ended ext.merged ext.now linked' (ext.same_links.live_still (ptr i) live) in
      (s', bind-ok _ ext.extends e, k)
    where
      ended :
          (merged : Bool) (now : Sink Atom Error)
          → IsLinked now
          → IsLive now (ptr i)
          → (s' : Sink Atom Error) × ((if merged
                then ok now
                else append_new now (ptr i) (text more))
              ≡ ok s')
            × IsLinked s'
      ended true now linked live = (now, refl, linked)
      ended false now linked live = append_new-Linked now linked i (text more) live

  -- In a sink in which a node has a parent just if it is once among the children there: to append
  -- a text, or a node that has no parent, to a node that exists, append returns without a panic
  -- and keeps that relation.
  pub append-Linked :
      (s : Sink Atom Error)
      → IsLinked s
      → (i : ℕ) (child : NodeOrText Handle) → IsLive s (ptr i)
      → IsLoose s child
      → (s' : Sink Atom Error) × (append s (ptr i) child ≡ ok s') × IsLinked s'
  unfolding append
  append-Linked s linked i (append_node c) live (live_c, orphan) =
      let (s', e, linked', new) = push_child-Linked s linked i c live live_c orphan in
      (s', e, linked')
  append-Linked s linked i (append_text more) (n, e) loose =
      let lives : (h : Handle) → last? n.children ≡ some h → IsLive s h = λ h f.
        child-IsLive s linked i h
          (last?-count (children_at s (ptr i)) h (rw⁻¹ (deref-children s (ptr i) n e) f)) in
      let (s', f, linked') = append_text-Linked s linked i more (last? n.children) (n, e) lives in
      (s', bind-ok _ e f, linked')

-- The sink at the start.
pub new_sink-Linked : (Atom Error : Type 0) → IsLinked (new_sink {Atom = Atom} {Error = Error})
unfolding new_sink new_node children_at children_of parent_at parent_of deref
new_sink-Linked Atom Error zero null = refl
new_sink-Linked Atom Error zero (ptr zero) = refl
new_sink-Linked Atom Error zero (ptr (suc j)) = refl
new_sink-Linked Atom Error (suc i) null = refl
new_sink-Linked Atom Error (suc i) (ptr zero) = refl
new_sink-Linked Atom Error (suc i) (ptr (suc j)) = refl
