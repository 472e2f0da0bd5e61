-- ===== src/Tokenizer/Rules/End.antt =====
-- `eof_step`: what each state does at the end of the input.
use html.Prelude.{[], ◌∷◌, Checked, ok, panic}
use html.Tokenizer.States.{
  State, rcdata, rawtext, script_data, script_data_escaped, double_escaped, data_state, plaintext,
  tag_open, end_tag_open, raw_data, raw_less_than_sign, raw_end_tag_open, raw_end_tag_name,
  script_data_escape_start, script_data_escape_start_dash, script_data_double_escape_end,
  comment_start, comment_start_dash, comment, comment_end_dash, comment_end, comment_end_bang,
  doctype, before_doctype_name, doctype_name, after_doctype_name, after_doctype_keyword,
  before_doctype_identifier, doctype_identifier_double_quoted, doctype_identifier_single_quoted,
  after_doctype_identifier, between_doctype_public_and_system_identifiers, bogus_doctype,
  bogus_comment, markup_declaration_open, cdata_section,
}
use html.Tokenizer.Actions.{
  Go, go, to, eof, emit, emit_temp, emit_comment, create_doctype, force_quirks, emit_doctype, error,
  error_eof,
}

-- The panic is `fail!("... not implemented in EOF")`.
unfoldable pub eof_rule : State → Checked Go
eof_rule data_state = ok (go [] eof)
eof_rule (raw_data rcdata) = ok (go [] eof)
eof_rule (raw_data rawtext) = ok (go [] eof)
eof_rule (raw_data script_data) = ok (go [] eof)
eof_rule plaintext = ok (go [] eof)
eof_rule tag_open = ok (go (error_eof ∷ emit b'<' ∷ []) (to data_state))
eof_rule end_tag_open = ok (go (error_eof ∷ emit b'<' ∷ emit b'/' ∷ []) (to data_state))
eof_rule (raw_less_than_sign (script_data_escaped double_escaped)) =
    ok (go [] (to (raw_data (script_data_escaped double_escaped))))
eof_rule (raw_less_than_sign kind) = ok (go (emit b'<' ∷ []) (to (raw_data kind)))
eof_rule (raw_end_tag_open kind) = ok (go (emit b'<' ∷ emit b'/' ∷ []) (to (raw_data kind)))
eof_rule (raw_end_tag_name kind) =
    ok (go (emit b'<' ∷ emit b'/' ∷ emit_temp ∷ []) (to (raw_data kind)))
eof_rule (script_data_escape_start kind) = ok (go [] (to (raw_data (script_data_escaped kind))))
eof_rule script_data_escape_start_dash = ok (go [] (to (raw_data script_data)))
eof_rule script_data_double_escape_end =
    ok (go [] (to (raw_data (script_data_escaped double_escaped))))
eof_rule comment_start = ok (go (error_eof ∷ emit_comment ∷ []) (to data_state))
eof_rule comment_start_dash = ok (go (error_eof ∷ emit_comment ∷ []) (to data_state))
eof_rule comment = ok (go (error_eof ∷ emit_comment ∷ []) (to data_state))
eof_rule comment_end_dash = ok (go (error_eof ∷ emit_comment ∷ []) (to data_state))
eof_rule comment_end = ok (go (error_eof ∷ emit_comment ∷ []) (to data_state))
eof_rule comment_end_bang = ok (go (error_eof ∷ emit_comment ∷ []) (to data_state))
eof_rule doctype =
    ok (go (error_eof ∷ create_doctype ∷ force_quirks ∷ emit_doctype ∷ []) (to data_state))
eof_rule before_doctype_name =
    ok (go (error_eof ∷ create_doctype ∷ force_quirks ∷ emit_doctype ∷ []) (to data_state))
eof_rule doctype_name = ok (go (error_eof ∷ force_quirks ∷ emit_doctype ∷ []) (to data_state))
eof_rule after_doctype_name = ok (go (error_eof ∷ force_quirks ∷ emit_doctype ∷ []) (to data_state))
eof_rule (after_doctype_keyword _) =
    ok (go (error_eof ∷ force_quirks ∷ emit_doctype ∷ []) (to data_state))
eof_rule (before_doctype_identifier _) =
    ok (go (error_eof ∷ force_quirks ∷ emit_doctype ∷ []) (to data_state))
eof_rule (doctype_identifier_double_quoted _) =
    ok (go (error_eof ∷ force_quirks ∷ emit_doctype ∷ []) (to data_state))
eof_rule (doctype_identifier_single_quoted _) =
    ok (go (error_eof ∷ force_quirks ∷ emit_doctype ∷ []) (to data_state))
eof_rule (after_doctype_identifier _) =
    ok (go (error_eof ∷ force_quirks ∷ emit_doctype ∷ []) (to data_state))
eof_rule between_doctype_public_and_system_identifiers =
    ok (go (error_eof ∷ force_quirks ∷ emit_doctype ∷ []) (to data_state))
eof_rule bogus_doctype = ok (go (emit_doctype ∷ []) (to data_state))
eof_rule bogus_comment = ok (go (emit_comment ∷ []) (to data_state))
eof_rule markup_declaration_open = ok (go (error ∷ []) (to bogus_comment))
eof_rule cdata_section = panic
-- `TagName`, `RawData(ScriptDataEscaped(_))`, the states of attributes, `SelfClosingStartTag`, and
-- `ScriptDataEscapedDash(_)` and `ScriptDataEscapedDashDash(_)`.
eof_rule _ = ok (go (error_eof ∷ []) (to data_state))
