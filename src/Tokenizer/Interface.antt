-- ===== src/Tokenizer/Interface.antt =====
-- src/tokenizer/interface.rs: the tokens, and what the tokenizer takes from outside the repository.
use html.Prelude.{ℕ, ◌≡◌, Bool, false, Option, none, List, Text}
use html.Tokenizer.States.{State}

pub record Doctype : Type 0 where
  pub name : Option Text
  pub public_id : Option Text
  pub system_id : Option Text
  pub force_quirks : Bool

-- `Doctype::new`.
abbrev pub new_doctype : Doctype
new_doctype = record { name = none; public_id = none; system_id = none; force_quirks = false }

-- `QualName` of the string_cache crate, over its type of atoms.
pub record QualName (Atom : Type 0) : Type 0 where
  pub ns : Atom
  pub local : Atom

pub record Attribute (Atom : Type 0) : Type 0 where
  pub name : QualName Atom
  pub value : Text

pub data TagKind : Type 0 where
  start_tag end_tag : TagKind

pub record Tag (Atom : Type 0) : Type 0 where
  pub kind : TagKind
  pub name : Atom
  pub self_closing : Bool
  pub attrs : List (Attribute Atom)

-- The text of a parse error: a static string, or a format string by its arguments.
pub data Message : Type 0 where
  static : Text → Message
  bad_character : ℕ → Message
  saw_in_state : ℕ → State → Message
  saw_eof_in_state : State → Message
  invalid_numeric_value : ℕ → Message
  invalid_reference : Text → Message

pub data Token (Atom : Type 0) : Type 0 where
  doctype_token : Doctype → Token Atom
  tag_token : Tag Atom → Token Atom
  comment_token character_tokens : Text → Token Atom
  null_character_token eof_token : Token Atom
  parse_error : Message → Token Atom

-- What the tokenizer is given: the atoms of the string_cache crate, a `TokenSink`, and the table
-- `NAMED_ENTITIES` that the build generates. An atom keeps the text that it was made from.
pub record Externals : Type 1 where
  pub Atom : Type 0
  pub from_slice : Text → Atom
  pub as_slice : Atom → Text
  pub as_slice-from_slice : (s : Text) → as_slice (from_slice s) ≡ s
  pub Sink : Type 0
  pub process_token : Sink → Token Atom → Sink
  pub query_state_change : Sink → Option State × Sink
  pub find_entity : Text → Option (ℕ × ℕ)
