-- ===== src/Tokenizer/Dispatch.antt =====
-- src/tokenizer/mod.rs: the match of `step` on the state: how each state reads, and its rule.
use html.Prelude.{ℕ, Bool, [], ◌∷◌, List}
use html.BufferQueue.{SetResult}
use html.Tokenizer.States.{
  State, rcdata, rawtext, script_data, script_data_escaped, escaped, double_escaped, unquoted,
  single_quoted, double_quoted, data_state, plaintext, tag_open, end_tag_open, tag_name, raw_data,
  raw_less_than_sign, raw_end_tag_open, raw_end_tag_name, script_data_escape_start,
  script_data_escape_start_dash, script_data_escaped_dash, script_data_escaped_dash_dash,
  script_data_double_escape_end, before_attribute_name, attribute_name, after_attribute_name,
  before_attribute_value, attribute_value, after_attribute_value_quoted, self_closing_start_tag,
  bogus_comment, markup_declaration_open, comment_start, comment_start_dash, comment,
  comment_end_dash, comment_end, comment_end_bang, doctype, before_doctype_name, doctype_name,
  after_doctype_name, after_doctype_keyword, before_doctype_identifier,
  doctype_identifier_double_quoted, doctype_identifier_single_quoted, after_doctype_identifier,
  between_doctype_public_and_system_identifiers, bogus_doctype, cdata_section,
}
use html.Tokenizer.Actions.{Go, go, stay}
use html.Tokenizer.Rules.Content.{
  data_rule, rcdata_rule, rawtext_rule, script_data_rule, script_data_escaped_rule,
  script_data_double_escaped_rule, plaintext_rule, double_quoted_rule, single_quoted_rule,
  unquoted_rule,
}
use html.Tokenizer.Rules.Script.{
  less_than_rule, raw_end_tag_open_rule, raw_end_tag_name_rule, double_escape_start_rule,
  escape_start_rule, escape_start_dash_rule, escaped_dash_rule, escaped_dash_dash_rule,
  double_escape_end_rule,
}
use html.Tokenizer.Rules.Tags.{
  tag_open_rule, end_tag_open_rule, tag_name_rule, before_attribute_name_rule, attribute_name_rule,
  after_attribute_name_rule, before_attribute_value_rule, after_attribute_value_quoted_rule,
  self_closing_start_tag_rule,
}
use html.Tokenizer.Rules.Comments.{
  comment_start_rule, comment_start_dash_rule, comment_rule, comment_end_dash_rule,
  comment_end_rule, comment_end_bang_rule, bogus_comment_rule,
}
use html.Tokenizer.Rules.Doctypes.{
  doctype_rule, before_doctype_name_rule, doctype_name_rule, after_doctype_name_rule,
  after_doctype_keyword_rule, before_doctype_identifier_rule, doctype_identifier_double_quoted_rule,
  doctype_identifier_single_quoted_rule, after_doctype_identifier_rule, between_identifiers_rule,
  bogus_doctype_rule,
}

-- The rules of the states that read one character. `appropriate` is `have_appropriate_end_tag`, and
-- `is_script` the test of the temporary buffer. The other states are not reached here.
unfoldable pub char_rule : State → Bool → Bool → ℕ → Go
char_rule tag_open appropriate is_script c = tag_open_rule c
char_rule end_tag_open appropriate is_script c = end_tag_open_rule c
char_rule tag_name appropriate is_script c = tag_name_rule c
char_rule (raw_less_than_sign kind) appropriate is_script c = less_than_rule kind c
char_rule (raw_end_tag_open kind) appropriate is_script c = raw_end_tag_open_rule kind c
char_rule (raw_end_tag_name kind) appropriate is_script c = raw_end_tag_name_rule kind appropriate c
char_rule (script_data_escape_start double_escaped) appropriate is_script c =
    double_escape_start_rule is_script c
char_rule (script_data_escape_start escaped) appropriate is_script c = escape_start_rule c
char_rule script_data_escape_start_dash appropriate is_script c = escape_start_dash_rule c
char_rule (script_data_escaped_dash kind) appropriate is_script c = escaped_dash_rule kind c
char_rule (script_data_escaped_dash_dash kind) appropriate is_script c =
    escaped_dash_dash_rule kind c
char_rule script_data_double_escape_end appropriate is_script c = double_escape_end_rule is_script c
char_rule before_attribute_name appropriate is_script c = before_attribute_name_rule c
char_rule attribute_name appropriate is_script c = attribute_name_rule c
char_rule after_attribute_name appropriate is_script c = after_attribute_name_rule c
char_rule before_attribute_value appropriate is_script c = before_attribute_value_rule c
char_rule after_attribute_value_quoted appropriate is_script c = after_attribute_value_quoted_rule c
char_rule self_closing_start_tag appropriate is_script c = self_closing_start_tag_rule c
char_rule bogus_comment appropriate is_script c = bogus_comment_rule c
char_rule comment_start appropriate is_script c = comment_start_rule c
char_rule comment_start_dash appropriate is_script c = comment_start_dash_rule c
char_rule comment appropriate is_script c = comment_rule c
char_rule comment_end_dash appropriate is_script c = comment_end_dash_rule c
char_rule comment_end appropriate is_script c = comment_end_rule c
char_rule comment_end_bang appropriate is_script c = comment_end_bang_rule c
char_rule doctype appropriate is_script c = doctype_rule c
char_rule before_doctype_name appropriate is_script c = before_doctype_name_rule c
char_rule doctype_name appropriate is_script c = doctype_name_rule c
char_rule after_doctype_name appropriate is_script c = after_doctype_name_rule c
char_rule (after_doctype_keyword kind) appropriate is_script c = after_doctype_keyword_rule kind c
char_rule (before_doctype_identifier kind) appropriate is_script c =
    before_doctype_identifier_rule kind c
char_rule (doctype_identifier_double_quoted kind) appropriate is_script c =
    doctype_identifier_double_quoted_rule kind c
char_rule (doctype_identifier_single_quoted kind) appropriate is_script c =
    doctype_identifier_single_quoted_rule kind c
char_rule (after_doctype_identifier kind) appropriate is_script c =
    after_doctype_identifier_rule kind c
char_rule between_doctype_public_and_system_identifiers appropriate is_script c =
    between_identifiers_rule c
char_rule bogus_doctype appropriate is_script c = bogus_doctype_rule c
char_rule _ appropriate is_script c = go [] stay

-- The sets of the states that read runs of characters, and their rules.
pub data Reader : Type 0 where
  by_set : List ℕ → (SetResult → Go) → Reader
  by_char by_keyword no_reader : Reader

unfoldable pub reader : State → Reader
reader data_state = by_set (b'\r' ∷ 0 ∷ b'&' ∷ b'<' ∷ []) data_rule
reader (raw_data rcdata) = by_set (b'\r' ∷ 0 ∷ b'&' ∷ b'<' ∷ []) rcdata_rule
reader (raw_data rawtext) = by_set (b'\r' ∷ 0 ∷ b'<' ∷ []) rawtext_rule
reader (raw_data script_data) = by_set (b'\r' ∷ 0 ∷ b'<' ∷ []) script_data_rule
reader (raw_data (script_data_escaped escaped)) =
    by_set (b'\r' ∷ 0 ∷ b'-' ∷ b'<' ∷ []) script_data_escaped_rule
reader (raw_data (script_data_escaped double_escaped)) =
    by_set (b'\r' ∷ 0 ∷ b'-' ∷ b'<' ∷ []) script_data_double_escaped_rule
reader plaintext = by_set (b'\r' ∷ 0 ∷ []) plaintext_rule
reader (attribute_value double_quoted) = by_set (b'\r' ∷ b'"' ∷ b'&' ∷ 0 ∷ []) double_quoted_rule
reader (attribute_value single_quoted) = by_set (b'\r' ∷ b'\'' ∷ b'&' ∷ 0 ∷ []) single_quoted_rule
reader (attribute_value unquoted) =
    by_set (b'\r' ∷ b'\t' ∷ b'\n' ∷ 0x0C ∷ b' ' ∷ b'&' ∷ b'>' ∷ 0 ∷ []) unquoted_rule
reader after_doctype_name = by_keyword
reader markup_declaration_open = by_keyword
reader cdata_section = no_reader
reader _ = by_char
