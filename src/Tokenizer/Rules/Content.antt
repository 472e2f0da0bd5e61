-- ===== src/Tokenizer/Rules/Content.antt =====
-- The states that read runs of characters: text, and attribute values.
use html.Prelude.{ℕ, Bool, ◌||◌, some, none, [], ◌∷◌, ◌==◌, if◌then◌else◌, contains}
use html.BufferQueue.{SetResult, from_set, not_from_set}
use html.Tokenizer.States.{
  rcdata, rawtext, script_data, script_data_escaped, escaped, double_escaped, data_state, tag_open,
  raw_less_than_sign, script_data_escaped_dash, after_attribute_value_quoted, before_attribute_name,
}
use html.Tokenizer.Actions.{
  Go, go, stay, to, consume_char_ref, emit_tag, emit, emit_chars, push_value, append_value, error,
  replacement,
}

-- '\t' | '\n' | '\x0C' | ' '
abbrev pub is_space : ℕ → Bool
is_space c = c == b'\t' || c == b'\n' || c == 0x0C || c == b' '

unfoldable pub data_rule : SetResult → Go
data_rule (from_set c) =
    if c == 0
    then go (error ∷ emit 0 ∷ []) stay
    else if c == b'&'
    then go [] (consume_char_ref none)
    else if c == b'<'
    then go [] (to tag_open)
    else go (emit c ∷ []) stay
data_rule (not_from_set b) = go (emit_chars b ∷ []) stay

unfoldable pub rcdata_rule : SetResult → Go
rcdata_rule (from_set c) =
    if c == 0
    then go (error ∷ emit replacement ∷ []) stay
    else if c == b'&'
    then go [] (consume_char_ref none)
    else if c == b'<'
    then go [] (to (raw_less_than_sign rcdata))
    else go (emit c ∷ []) stay
rcdata_rule (not_from_set b) = go (emit_chars b ∷ []) stay

unfoldable pub rawtext_rule : SetResult → Go
rawtext_rule (from_set c) =
    if c == 0
    then go (error ∷ emit replacement ∷ []) stay
    else if c == b'<'
    then go [] (to (raw_less_than_sign rawtext))
    else go (emit c ∷ []) stay
rawtext_rule (not_from_set b) = go (emit_chars b ∷ []) stay

unfoldable pub script_data_rule : SetResult → Go
script_data_rule (from_set c) =
    if c == 0
    then go (error ∷ emit replacement ∷ []) stay
    else if c == b'<'
    then go [] (to (raw_less_than_sign script_data))
    else go (emit c ∷ []) stay
script_data_rule (not_from_set b) = go (emit_chars b ∷ []) stay

unfoldable pub script_data_escaped_rule : SetResult → Go
script_data_escaped_rule (from_set c) =
    if c == 0
    then go (error ∷ emit replacement ∷ []) stay
    else if c == b'-'
    then go (emit b'-' ∷ []) (to (script_data_escaped_dash escaped))
    else if c == b'<'
    then go [] (to (raw_less_than_sign (script_data_escaped escaped)))
    else go (emit c ∷ []) stay
script_data_escaped_rule (not_from_set b) = go (emit_chars b ∷ []) stay

unfoldable pub script_data_double_escaped_rule : SetResult → Go
script_data_double_escaped_rule (from_set c) =
    if c == 0
    then go (error ∷ emit replacement ∷ []) stay
    else if c == b'-'
    then go (emit b'-' ∷ []) (to (script_data_escaped_dash double_escaped))
    else if c == b'<'
    then go (emit b'<' ∷ []) (to (raw_less_than_sign (script_data_escaped double_escaped)))
    else go (emit c ∷ []) stay
script_data_double_escaped_rule (not_from_set b) = go (emit_chars b ∷ []) stay

unfoldable pub plaintext_rule : SetResult → Go
plaintext_rule (from_set c) =
    if c == 0 then go (error ∷ emit replacement ∷ []) stay else go (emit c ∷ []) stay
plaintext_rule (not_from_set b) = go (emit_chars b ∷ []) stay

unfoldable pub double_quoted_rule : SetResult → Go
double_quoted_rule (from_set c) =
    if c == b'"'
    then go [] (to after_attribute_value_quoted)
    else if c == b'&'
    then go [] (consume_char_ref (some b'"'))
    else if c == 0
    then go (error ∷ push_value replacement ∷ []) stay
    else go (push_value c ∷ []) stay
double_quoted_rule (not_from_set b) = go (append_value b ∷ []) stay

unfoldable pub single_quoted_rule : SetResult → Go
single_quoted_rule (from_set c) =
    if c == b'\''
    then go [] (to after_attribute_value_quoted)
    else if c == b'&'
    then go [] (consume_char_ref (some b'\''))
    else if c == 0
    then go (error ∷ push_value replacement ∷ []) stay
    else go (push_value c ∷ []) stay
single_quoted_rule (not_from_set b) = go (append_value b ∷ []) stay

unfoldable pub unquoted_rule : SetResult → Go
unquoted_rule (from_set c) =
    if is_space c
    then go [] (to before_attribute_name)
    else if c == b'&'
    then go [] (consume_char_ref (some b'>'))
    else if c == b'>'
    then go [] (emit_tag data_state)
    else if c == 0
    then go (error ∷ push_value replacement ∷ []) stay
    else if contains (b'"' ∷ b'\'' ∷ b'<' ∷ b'=' ∷ b'`' ∷ []) c
    then go (error ∷ push_value c ∷ []) stay
    else go (push_value c ∷ []) stay
unquoted_rule (not_from_set b) = go (append_value b ∷ []) stay
