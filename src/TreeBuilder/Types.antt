-- ===== src/TreeBuilder/Types.antt =====
-- src/tree_builder/types.rs: the types inside the tree builder, and the text of its parse errors.
use html.Prelude.{Text}
use html.Tokenizer.Interface.{Tag, QualName, Message, Doctype}

pub data InsertionMode : Type 0 where
  initial before_html before_head in_head in_head_noscript after_head in_body text_mode :
      InsertionMode
  in_table in_table_text in_caption in_column_group in_table_body in_row in_cell : InsertionMode
  in_select in_select_in_table in_template after_body in_frameset after_frameset : InsertionMode
  after_after_body after_after_frameset : InsertionMode

pub data SplitStatus : Type 0 where
  not_split whitespace not_whitespace : SplitStatus

pub data Token (Atom : Type 0) : Type 0 where
  tag_token : Tag Atom → Token Atom
  comment_token : Text → Token Atom
  character_tokens : SplitStatus → Text → Token Atom
  null_character_token eof_token : Token Atom

pub data ProcessResult (Atom : Type 0) : Type 0 where
  done done_ack_self_closing : ProcessResult Atom
  split_whitespace : Text → ProcessResult Atom
  reprocess : InsertionMode → Token Atom → ProcessResult Atom

pub data FormatEntry (Handle Atom : Type 0) : Type 0 where
  element : Handle → Tag Atom → FormatEntry Handle Atom
  marker : FormatEntry Handle Atom

-- A static message, or a format string by its arguments.
pub data TreeError (Atom : Type 0) : Type 0 where
  static : Text → TreeError Atom
  from_tokenizer : Message → TreeError Atom
  bad_doctype : Doctype → TreeError Atom
  doctype_in : InsertionMode → TreeError Atom
  unexpected_token : Token Atom → InsertionMode → TreeError Atom
  unexpected_open_tag : QualName Atom → TreeError Atom
  unexpected_closing : Atom → TreeError Atom
