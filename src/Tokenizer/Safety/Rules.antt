-- ===== src/Tokenizer/Safety/Rules.antt =====
-- Every rule uses only sound commands, and leaves its state only for states that are implemented.
pub mod Tags
pub mod Script
pub mod Comments
pub mod Doctypes
use html.Prelude.{
  ℕ, ◌+◌, ◌≡◌, ◌≢◌, refl, Bool, true, false, not, ◌&&◌, ◌||◌, Option, none, some, List, [], ◌∷◌,
  Text, All, ◌==◌, ltb, leb, within, if◌then◌else◌, arith, contains,
}
use html.Tokenizer.States.{
  State, RawKind, ScriptEscapeKind, DoctypeIdKind, escaped, double_escaped, tag_open, end_tag_open,
  tag_name, raw_less_than_sign, raw_end_tag_open, raw_end_tag_name, script_data_escape_start,
  script_data_escape_start_dash, script_data_escaped_dash, script_data_escaped_dash_dash,
  script_data_double_escape_end, before_attribute_name, attribute_name, after_attribute_name,
  before_attribute_value, after_attribute_value_quoted, self_closing_start_tag, bogus_comment,
  comment_start, comment_start_dash, comment, comment_end_dash, comment_end, comment_end_bang,
  doctype, before_doctype_name, doctype_name, after_doctype_name, after_doctype_keyword,
  before_doctype_identifier, doctype_identifier_double_quoted, doctype_identifier_single_quoted,
  after_doctype_identifier, between_doctype_public_and_system_identifiers, bogus_doctype,
}
use Tags.{
  tag_open-ok, end_tag_open-ok, tag_name-ok, before_attribute_name-ok, attribute_name-ok,
  after_attribute_name-ok, before_attribute_value-ok, after_attribute_value_quoted-ok,
  self_closing_start_tag-ok,
}
use Script.{
  less_than-ok, raw_end_tag_open-ok, raw_end_tag_name-ok, double_escape_start-ok, escape_start-ok,
  escape_start_dash-ok, escaped_dash-ok, escaped_dash_dash-ok, double_escape_end-ok,
}
use Comments.{
  comment_start-ok, comment_start_dash-ok, comment-ok, comment_end_dash-ok, comment_end-ok,
  comment_end_bang-ok, bogus_comment-ok,
}
use Doctypes.{
  doctype-ok, before_doctype_name-ok, doctype_name-ok, after_doctype_name-ok,
  after_doctype_keyword-ok, before_doctype_identifier-ok, doctype_identifier_double_quoted-ok,
  doctype_identifier_single_quoted-ok, after_doctype_identifier-ok, between_identifiers-ok,
  bogus_doctype-ok,
}
use html.Tokenizer.Dispatch.{char_rule}
use html.Tokenizer.Safety.Checks.{char_rule_ok}

-- Whatever character is read, the rule of every state that reads single characters puts only
-- characters into names that are neither U+0000 nor ASCII capitals, puts no U+0000 into values,
-- comments, identifiers and the temporary buffer and emits none as text, leaves only for
-- implemented states, and starts a character reference only in a state that can take its result.
pub char_rule-ok :
    (s : State) (appropriate is_script : Bool) (c : ℕ)
    → char_rule_ok s (char_rule s appropriate is_script c) ≡ true
unfolding char_rule
char_rule-ok tag_open appropriate is_script c = tag_open-ok tag_open c
char_rule-ok end_tag_open appropriate is_script c = end_tag_open-ok end_tag_open c
char_rule-ok tag_name appropriate is_script c = tag_name-ok tag_name c
char_rule-ok (raw_less_than_sign kind) appropriate is_script c =
    less_than-ok (raw_less_than_sign kind) kind c
char_rule-ok (raw_end_tag_open kind) appropriate is_script c =
    raw_end_tag_open-ok (raw_end_tag_open kind) kind c
char_rule-ok (raw_end_tag_name kind) appropriate is_script c =
    raw_end_tag_name-ok (raw_end_tag_name kind) kind appropriate c
char_rule-ok (script_data_escape_start double_escaped) appropriate is_script c =
    double_escape_start-ok (script_data_escape_start double_escaped) is_script c
char_rule-ok (script_data_escape_start escaped) appropriate is_script c =
    escape_start-ok (script_data_escape_start escaped) c
char_rule-ok script_data_escape_start_dash appropriate is_script c =
    escape_start_dash-ok script_data_escape_start_dash c
char_rule-ok (script_data_escaped_dash kind) appropriate is_script c =
    escaped_dash-ok (script_data_escaped_dash kind) kind c
char_rule-ok (script_data_escaped_dash_dash kind) appropriate is_script c =
    escaped_dash_dash-ok (script_data_escaped_dash_dash kind) kind c
char_rule-ok script_data_double_escape_end appropriate is_script c =
    double_escape_end-ok script_data_double_escape_end is_script c
char_rule-ok before_attribute_name appropriate is_script c =
    before_attribute_name-ok before_attribute_name c
char_rule-ok attribute_name appropriate is_script c = attribute_name-ok attribute_name c
char_rule-ok after_attribute_name appropriate is_script c =
    after_attribute_name-ok after_attribute_name c
char_rule-ok before_attribute_value appropriate is_script c =
    before_attribute_value-ok before_attribute_value c
char_rule-ok after_attribute_value_quoted appropriate is_script c =
    after_attribute_value_quoted-ok after_attribute_value_quoted c
char_rule-ok self_closing_start_tag appropriate is_script c =
    self_closing_start_tag-ok self_closing_start_tag c
char_rule-ok bogus_comment appropriate is_script c = bogus_comment-ok bogus_comment c
char_rule-ok comment_start appropriate is_script c = comment_start-ok comment_start c
char_rule-ok comment_start_dash appropriate is_script c = comment_start_dash-ok comment_start_dash c
char_rule-ok comment appropriate is_script c = comment-ok comment c
char_rule-ok comment_end_dash appropriate is_script c = comment_end_dash-ok comment_end_dash c
char_rule-ok comment_end appropriate is_script c = comment_end-ok comment_end c
char_rule-ok comment_end_bang appropriate is_script c = comment_end_bang-ok comment_end_bang c
char_rule-ok doctype appropriate is_script c = doctype-ok doctype c
char_rule-ok before_doctype_name appropriate is_script c =
    before_doctype_name-ok before_doctype_name c
char_rule-ok doctype_name appropriate is_script c = doctype_name-ok doctype_name c
char_rule-ok after_doctype_name appropriate is_script c = after_doctype_name-ok after_doctype_name c
char_rule-ok (after_doctype_keyword kind) appropriate is_script c =
    after_doctype_keyword-ok (after_doctype_keyword kind) kind c
char_rule-ok (before_doctype_identifier kind) appropriate is_script c =
    before_doctype_identifier-ok (before_doctype_identifier kind) kind c
char_rule-ok (doctype_identifier_double_quoted kind) appropriate is_script c =
    doctype_identifier_double_quoted-ok (doctype_identifier_double_quoted kind) kind c
char_rule-ok (doctype_identifier_single_quoted kind) appropriate is_script c =
    doctype_identifier_single_quoted-ok (doctype_identifier_single_quoted kind) kind c
char_rule-ok (after_doctype_identifier kind) appropriate is_script c =
    after_doctype_identifier-ok (after_doctype_identifier kind) kind c
char_rule-ok between_doctype_public_and_system_identifiers appropriate is_script c =
    between_identifiers-ok between_doctype_public_and_system_identifiers c
char_rule-ok bogus_doctype appropriate is_script c = bogus_doctype-ok bogus_doctype c
char_rule-ok _ appropriate is_script c = refl
