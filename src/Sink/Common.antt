-- ===== src/Sink/Common.antt =====
-- src/sink/common.rs: the kinds of nodes of a document.
use html.Prelude.{List, Text}
use html.Tokenizer.Interface.{QualName, Attribute}

pub data NodeEnum (Atom : Type 0) : Type 0 where
  document : NodeEnum Atom
  doctype : Text → Text → Text → NodeEnum Atom
  text comment : Text → NodeEnum Atom
  element : QualName Atom → List (Attribute Atom) → NodeEnum Atom
