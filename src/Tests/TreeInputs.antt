-- ===== src/Tests/TreeInputs.antt =====
-- Concrete names, a writer, a document tree and a sink with some nodes.
use html.Prelude.{
  ◌≡◌, refl, ap, ◌++◌, false, [], ◌∷◌, Text, codes, ok, panic, Checked, subst, sym, bind-ok, Bool,
  if◌then◌else◌,
}
use html.Tokenizer.Interface.{QualName, Tag, start_tag}
use html.Names.{Atoms, html_namespace, qual_eq}
use html.Serialize.{Output, okay}
use html.Serialize.Writes.{IsWriter}
use html.Sink.Common.{document, doctype, text, comment, element}
use html.Sink.Owned.{Node, node, no_nodes, and_node}
use html.TreeBuilder.Types.{TreeError}
use html.TreeBuilder.Interface.{append_node}
use html.Sink.Store.{Sink, Handle, null, ptr, new_sink, new_node, deref, store, append, same}
use html.Sink.Links.{parent_of, parent_at, IsLinked}
use html.Sink.Texts.{new_node-SameLinks, SameLinks-Linked}
use html.Sink.Append.{new_sink-Linked, append-Linked}
use html.Sink.Build.{elem_name}
use html.Sink.Tree.{owned_sink}
use html.TreeBuilder.Builder.{TreeBuilder, new, default_opts}
use html.TreeBuilder.Stack.{html_elem_named}
use html.TreeBuilder.Scope.{AreNamed}
use html.Sink.Rewired.{IsLive}

abbrev pub text_atoms : Atoms
text_atoms = record {
  Atom = Text;
  from_slice = λ s. s;
  as_slice = λ s. s;
  as_slice-from_slice = λ s. refl;
}

abbrev pub html_named : Text → QualName Text
html_named local = record { ns = html_namespace; local = local }

-- A writer into memory, which does not fail.
abbrev pub memory : Output
memory = record {
  Writer = Text;
  IoError = Unit {0};
  write_str = λ w s. (okay, w ++ s);
  write_char = λ w c. (okay, w ++ c ∷ []);
}

abbrev pub Holds : Text → Text → Type 0
Holds w s = w ≡ s

abbrev pub Broken : Text → Unit {0} → Type 0
Broken w e = ⊥

pub memory-IsWriter : IsWriter memory Holds Broken
memory-IsWriter = record {
  str_ok = λ w s more e. ap (λ t. t ++ more) e;
  char_ok = λ w s c e. ap (λ t. t ++ c ∷ []) e;
}

-- A paragraph with an attribute, a text, a void element and a comment.
abbrev pub sample_tree : Node Text
sample_tree = node document (
    and_node (node (doctype (codes "html") [] []) no_nodes) (
      and_node
        (node
          (element (html_named (codes "p"))
            (record { name = record { ns = []; local = codes "id" }; value = codes "a&b" } ∷ []))
          (and_node (node (text (codes "1 < 2")) no_nodes) (
            and_node (node (element (html_named (codes "br")) []) no_nodes)
              (and_node (node (comment (codes "x")) no_nodes) no_nodes))))
        no_nodes))

abbrev pub StoreSink : Type 0
StoreSink = Sink Text (TreeError Text)

-- The document, a body, a paragraph and a comment, none of which is in the tree.
abbrev pub loose_nodes : StoreSink
loose_nodes =
    (new_node
      (new_node (new_node new_sink (element (html_named (codes "body")) [])).1
        (element (html_named (codes "p")) [])).1
      (comment (codes "x"))).1

pub loose_nodes-IsLinked : IsLinked loose_nodes
loose_nodes-IsLinked =
    let s1 = (new_node new_sink (element (html_named (codes "body")) [])).1 in
    let s2 = (new_node s1 (element (html_named (codes "p")) [])).1 in
    SameLinks-Linked s2 loose_nodes (new_node-SameLinks s2 (comment (codes "x"))) (
      SameLinks-Linked s1 s2 (new_node-SameLinks s1 (element (html_named (codes "p")) [])) (
        SameLinks-Linked new_sink s1
          (new_node-SameLinks new_sink (element (html_named (codes "body")) []))
          (new_sink-Linked Text (TreeError Text))))

pub paragraph-IsLive : IsLive loose_nodes (ptr 2)
unfolding new_sink new_node deref
paragraph-IsLive = (_, refl)

pub parent_at_body : parent_at loose_nodes (ptr 1) ≡ null
unfolding parent_at parent_of new_sink new_node deref
parent_at_body = refl

pub document-IsLive : IsLive loose_nodes (ptr 0)
unfolding new_sink new_node deref
document-IsLive = (_, refl)

pub body-IsLive : IsLive loose_nodes (ptr 1)
unfolding new_sink new_node deref
body-IsLive = (_, refl)

-- The body is a child of the document.
abbrev pub or_else : Checked StoreSink → StoreSink → StoreSink
or_else (ok s) other = s
or_else panic other = other

abbrev pub one_child : StoreSink
one_child = or_else (append loose_nodes (ptr 0) (append_node (ptr 1))) loose_nodes

pub one_child-IsLinked : IsLinked one_child
one_child-IsLinked =
    let (s', e, linked) =
      append-Linked loose_nodes loose_nodes-IsLinked 0 (append_node (ptr 1)) document-IsLive
        (body-IsLive, parent_at_body) in
    subst IsLinked (ap (λ r. or_else r loose_nodes) (sym e)) linked

pub child_body : IsLive one_child (ptr 1)
unfolding new_sink new_node deref store append
child_body = (_, refl)

pub child_paragraph : IsLive one_child (ptr 2)
unfolding new_sink new_node deref store append
child_paragraph = (_, refl)

pub parent_body : parent_at one_child (ptr 1) ≡ ptr 0
unfolding parent_at parent_of new_sink new_node deref store append
parent_body = refl

-- The tree builder over that sink, with the paragraph and the body open.
abbrev pub sample_builder : TreeBuilder text_atoms (owned_sink text_atoms)
sample_builder = record (new one_child default_opts) { open_elems = ptr 2 ∷ ptr 1 ∷ [] }

abbrev pub names : Handle → QualName Text
names h = if same h (ptr 2) then html_named (codes "p") else html_named (codes "body")

pub sample-AreNamed :
    AreNamed (owned_sink text_atoms) sample_builder.sink names sample_builder.open_elems
unfolding new elem_name new_sink new_node deref store append
sample-AreNamed = (refl, (refl, tt))

abbrev pub named_p : Handle → Bool
named_p h = qual_eq text_atoms (names h) (html_named (codes "p"))

pub p_tests :
    (h : Handle)
    → elem_name one_child h ≡ ok (names h)
    → html_elem_named (owned_sink text_atoms) one_child h (codes "p") ≡ ok (named_p h)
unfolding html_elem_named
p_tests h e = bind-ok _ e refl

abbrev pub sample_tag : Tag Text
sample_tag = record { kind = start_tag; name = codes "b"; self_closing = false; attrs = [] }
