-- ===== src/Sink/Tree.antt =====
-- src/sink/owned_dom.rs: the sink that builds the tree, as what the tree builder is given.
use html.Names.{Atoms}
use html.TreeBuilder.Types.{TreeError}
use html.TreeBuilder.Interface.{TreeSink}
use html.Sink.Store.{Handle, same, Sink, append}
use html.Sink.Build.{
  parse_error, set_quirks_mode, elem_name, create_element, create_comment, append_before_sibling,
  append_doctype_to_document,
}

abbrev pub owned_sink : (a : Atoms) → TreeSink a
owned_sink a = record {
  Handle = Handle;
  Sink = Sink a.Atom (TreeError a.Atom);
  parse_error = parse_error;
  get_document = λ s. (s.document, s);
  same_node = λ s x y. same x y;
  elem_name = elem_name;
  set_quirks_mode = set_quirks_mode;
  create_element = create_element;
  create_comment = create_comment;
  append = append;
  append_before_sibling = append_before_sibling;
  append_doctype_to_document = append_doctype_to_document;
}
