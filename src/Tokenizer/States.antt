-- ===== src/Tokenizer/States.antt =====
-- src/tokenizer/states.rs: the states of the tokenizer.

pub data ScriptEscapeKind : Type 0 where
  escaped double_escaped : ScriptEscapeKind

pub data DoctypeIdKind : Type 0 where
  public system : DoctypeIdKind

pub data RawKind : Type 0 where
  rcdata rawtext script_data : RawKind
  script_data_escaped : ScriptEscapeKind → RawKind

pub data AttrValueKind : Type 0 where
  unquoted single_quoted double_quoted : AttrValueKind

pub data State : Type 0 where
  data_state plaintext tag_open end_tag_open tag_name : State
  raw_data raw_less_than_sign raw_end_tag_open raw_end_tag_name : RawKind → State
  script_data_escape_start : ScriptEscapeKind → State
  script_data_escape_start_dash : State
  script_data_escaped_dash script_data_escaped_dash_dash : ScriptEscapeKind → State
  script_data_double_escape_end : State
  before_attribute_name attribute_name after_attribute_name before_attribute_value : State
  attribute_value : AttrValueKind → State
  after_attribute_value_quoted self_closing_start_tag bogus_comment : State
  markup_declaration_open comment_start comment_start_dash comment comment_end_dash : State
  comment_end comment_end_bang doctype before_doctype_name doctype_name after_doctype_name : State
  after_doctype_keyword before_doctype_identifier : DoctypeIdKind → State
  doctype_identifier_double_quoted doctype_identifier_single_quoted : DoctypeIdKind → State
  after_doctype_identifier : DoctypeIdKind → State
  between_doctype_public_and_system_identifiers bogus_doctype cdata_section : State
