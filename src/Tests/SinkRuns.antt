-- ===== src/Tests/SinkRuns.antt =====
-- The sink of src/sink/owned_dom.rs on small trees.
use html.Prelude.{◌≡◌, refl, [], ◌∷◌, ok, Checked, ◌>>=◌}
use html.Sink.Store.{ptr, append, new_sink, new_node, deref, store}
use html.Sink.Build.{append_before_sibling}
use html.Sink.Links.{children_at, children_of}
use html.TreeBuilder.Interface.{append_node}
use html.Tests.TreeInputs.{StoreSink, loose_nodes}

-- Three children of the document.
abbrev three : Checked StoreSink
three = do
  s ← append loose_nodes (ptr 0) (append_node (ptr 1))
  s ← append s (ptr 0) (append_node (ptr 2))
  append s (ptr 0) (append_node (ptr 3))

-- The first child is put in front of the third one, and ends up behind it.
moved_too_far :
    (three >>= λ s.
    append_before_sibling s (ptr 3) (append_node (ptr 1)) >>= λ r. ok (children_at r.1 (ptr 0)))
    ≡ ok (ptr 2 ∷ ptr 3 ∷ ptr 1 ∷ [])
unfolding children_at children_of append_before_sibling append new_sink new_node deref store
moved_too_far = refl
