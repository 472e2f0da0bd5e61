-- ===== src/TreeBuilder/Interface.antt =====
-- src/tree_builder/interface.rs: what the tree builder and a sink for trees share.
use html.Prelude.{Bool, Option, List, Text, Checked}
use html.Tokenizer.Interface.{QualName, Attribute}
use html.Names.{Atoms}
use html.TreeBuilder.Types.{TreeError}

pub data QuirksMode : Type 0 where
  quirks limited_quirks no_quirks : QuirksMode

pub data NodeOrText (Handle : Type 0) : Type 0 where
  append_node : Handle → NodeOrText Handle
  append_text : Text → NodeOrText Handle

-- The trait `TreeSink`, for the methods that the modelled part of the tree builder calls. A result
-- `Err(node)` of `append_before_sibling` gives the node back.
pub record TreeSink (a : Atoms) : Type 1 where
  pub Handle : Type 0
  pub Sink : Type 0
  pub parse_error : Sink → TreeError a.Atom → Sink
  pub get_document : Sink → Handle × Sink
  pub same_node : Sink → Handle → Handle → Bool
  pub elem_name : Sink → Handle → Checked (QualName a.Atom)
  pub set_quirks_mode : Sink → QuirksMode → Sink
  pub create_element : Sink → QualName a.Atom → List (Attribute a.Atom) → Handle × Sink
  pub create_comment : Sink → Text → Handle × Sink
  pub append : Sink → Handle → NodeOrText Handle → Checked Sink
  pub append_before_sibling :
      Sink → Handle → NodeOrText Handle → Checked (Option (NodeOrText Handle) × Sink)
  pub append_doctype_to_document : Sink → Text → Text → Text → Checked Sink
