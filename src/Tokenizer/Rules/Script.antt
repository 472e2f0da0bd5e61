-- ===== src/Tokenizer/Rules/Script.antt =====
-- The states behind `<` in raw text, and the escapes of script data.
use html.Prelude.{ℕ, Bool, true, false, ◌||◌, some, none, List, [], ◌∷◌, ◌==◌, if◌then◌else◌}
use html.Util.Str.{lower_ascii_letter}
use html.Tokenizer.States.{
  RawKind, script_data, script_data_escaped, ScriptEscapeKind, escaped, double_escaped, data_state,
  raw_data, raw_less_than_sign, raw_end_tag_open, raw_end_tag_name, script_data_escape_start,
  script_data_escape_start_dash, script_data_escaped_dash_dash, script_data_double_escape_end,
  before_attribute_name, self_closing_start_tag,
}
use html.Tokenizer.Interface.{end_tag}
use html.Tokenizer.Actions.{
  Go, go, Cmd, stay, to, reconsume_in, emit_tag, emit, create_tag, push_tag, discard_tag, push_temp,
  emit_temp, clear_temp, error, replacement,
}
use html.Tokenizer.Rules.Content.{is_space}

unfoldable pub escaped_less_than_rule : ℕ → Go
escaped_less_than_rule c =
    if c == b'/'
    then go (clear_temp ∷ []) (to (raw_end_tag_open (script_data_escaped escaped)))
    else elim (lower_ascii_letter c) [
      | some cl ↦
          go (clear_temp ∷ push_temp cl ∷ emit b'<' ∷ emit c ∷ [])
            (to (script_data_escape_start double_escaped))
      | none ↦ go (emit b'<' ∷ []) (reconsume_in (raw_data (script_data_escaped escaped)))
    ]

unfoldable pub double_escaped_less_than_rule : ℕ → Go
double_escaped_less_than_rule c =
    if c == b'/'
    then go (clear_temp ∷ emit b'/' ∷ []) (to script_data_double_escape_end)
    else go [] (reconsume_in (raw_data (script_data_escaped double_escaped)))

-- `kind == ScriptData`
abbrev pub is_script_data : RawKind → Bool
is_script_data script_data = true
is_script_data _ = false

unfoldable pub raw_less_than_rule : RawKind → ℕ → Go
raw_less_than_rule kind c =
    if c == b'/'
    then go (clear_temp ∷ []) (to (raw_end_tag_open kind))
    else if c == b'!'
    then (if is_script_data kind
        then go (emit b'<' ∷ emit b'!' ∷ []) (to (script_data_escape_start escaped))
        else go (emit b'<' ∷ []) (reconsume_in (raw_data kind)))
    else go (emit b'<' ∷ []) (reconsume_in (raw_data kind))

-- The three sets of states that `RawLessThanSign` stands for.
unfoldable pub less_than_rule : RawKind → ℕ → Go
unfolding escaped_less_than_rule double_escaped_less_than_rule raw_less_than_rule
less_than_rule (script_data_escaped escaped) c = escaped_less_than_rule c
less_than_rule (script_data_escaped double_escaped) c = double_escaped_less_than_rule c
less_than_rule kind c = raw_less_than_rule kind c

unfoldable pub raw_end_tag_open_rule : RawKind → ℕ → Go
raw_end_tag_open_rule kind c = elim (lower_ascii_letter c) [
  | some cl ↦ go (create_tag end_tag cl ∷ push_temp c ∷ []) (to (raw_end_tag_name kind))
  | none ↦ go (emit b'<' ∷ emit b'/' ∷ []) (reconsume_in (raw_data kind))
]

-- The second match of the rule.
raw_end_tag_letter : RawKind → ℕ → Go
raw_end_tag_letter kind c = elim (lower_ascii_letter c) [
  | some cl ↦ go (push_tag cl ∷ push_temp c ∷ []) stay
  | none ↦ go (discard_tag ∷ emit b'<' ∷ emit b'/' ∷ emit_temp ∷ []) (reconsume_in (raw_data kind))
]

-- `appropriate` is the value of `have_appropriate_end_tag`.
unfoldable pub raw_end_tag_name_rule : RawKind → Bool → ℕ → Go
unfolding raw_end_tag_letter
raw_end_tag_name_rule kind false c = raw_end_tag_letter kind c
raw_end_tag_name_rule kind true c =
    if is_space c
    then go [] (to before_attribute_name)
    else if c == b'/'
    then go [] (to self_closing_start_tag)
    else if c == b'>'
    then go [] (emit_tag data_state)
    else raw_end_tag_letter kind c

-- `is_script` is the test of `temp_buf` against "script".
unfoldable pub double_escape_start_rule : Bool → ℕ → Go
double_escape_start_rule is_script c =
    if is_space c || c == b'/' || c == b'>'
    then go (emit c ∷ [])
        (to (raw_data (script_data_escaped (if is_script then double_escaped else escaped))))
    else elim (lower_ascii_letter c) [
      | some cl ↦ go (push_temp cl ∷ emit c ∷ []) stay
      | none ↦ go [] (reconsume_in (raw_data (script_data_escaped escaped)))
    ]

unfoldable pub escape_start_rule : ℕ → Go
escape_start_rule c =
    if c == b'-'
    then go (emit b'-' ∷ []) (to script_data_escape_start_dash)
    else go [] (reconsume_in (raw_data script_data))

unfoldable pub escape_start_dash_rule : ℕ → Go
escape_start_dash_rule c =
    if c == b'-'
    then go (emit b'-' ∷ []) (to (script_data_escaped_dash_dash escaped))
    else go [] (reconsume_in (raw_data script_data))

-- `if kind == DoubleEscaped { go!(self: emit '<'); }`
abbrev pub less_than_shown : ScriptEscapeKind → List Cmd
less_than_shown escaped = []
less_than_shown double_escaped = emit b'<' ∷ []

unfoldable pub escaped_dash_rule : ScriptEscapeKind → ℕ → Go
escaped_dash_rule kind c =
    if c == b'-'
    then go (emit b'-' ∷ []) (to (script_data_escaped_dash_dash kind))
    else if c == b'<'
    then go (less_than_shown kind) (to (raw_less_than_sign (script_data_escaped kind)))
    else if c == 0
    then go (error ∷ emit replacement ∷ []) (to (raw_data (script_data_escaped kind)))
    else go (emit c ∷ []) (to (raw_data (script_data_escaped kind)))

unfoldable pub escaped_dash_dash_rule : ScriptEscapeKind → ℕ → Go
escaped_dash_dash_rule kind c =
    if c == b'-'
    then go (emit b'-' ∷ []) stay
    else if c == b'<'
    then go (less_than_shown kind) (to (raw_less_than_sign (script_data_escaped kind)))
    else if c == b'>'
    then go (emit b'>' ∷ []) (to (raw_data script_data))
    else if c == 0
    then go (error ∷ emit replacement ∷ []) (to (raw_data (script_data_escaped kind)))
    else go (emit c ∷ []) (to (raw_data (script_data_escaped kind)))

unfoldable pub double_escape_end_rule : Bool → ℕ → Go
double_escape_end_rule is_script c =
    if is_space c || c == b'/' || c == b'>'
    then go (emit c ∷ [])
        (to (raw_data (script_data_escaped (if is_script then escaped else double_escaped))))
    else elim (lower_ascii_letter c) [
      | some cl ↦ go (push_temp cl ∷ emit c ∷ []) stay
      | none ↦ go [] (reconsume_in (raw_data (script_data_escaped double_escaped)))
    ]
