-- ===== src/Tokenizer/Rules/Tags.antt =====
-- The states that read a tag and its attributes.
use html.Prelude.{ℕ, some, none, [], ◌∷◌, ◌==◌, if◌then◌else◌, contains}
use html.Util.Str.{lower_ascii_letter, lower_ascii}
use html.Tokenizer.States.{
  data_state, tag_name, end_tag_open, unquoted, single_quoted, double_quoted, before_attribute_name,
  attribute_name, after_attribute_name, before_attribute_value, attribute_value,
  self_closing_start_tag, bogus_comment, markup_declaration_open,
}
use html.Tokenizer.Interface.{start_tag, end_tag}
use html.Tokenizer.Actions.{
  Go, go, stay, to, reconsume_in, emit_tag, emit, create_tag, push_tag, set_self_closing,
  create_attr, push_name, push_value, push_comment, clear_comment, error, replacement,
}
use html.Tokenizer.Rules.Content.{is_space}

unfoldable pub tag_open_rule : ℕ → Go
tag_open_rule c =
    if c == b'!'
    then go [] (to markup_declaration_open)
    else if c == b'/'
    then go [] (to end_tag_open)
    else if c == b'?'
    then go (error ∷ clear_comment ∷ push_comment b'?' ∷ []) (to bogus_comment)
    else elim (lower_ascii_letter c) [
      | some cl ↦ go (create_tag start_tag cl ∷ []) (to tag_name)
      | none ↦ go (error ∷ emit b'<' ∷ []) (reconsume_in data_state)
    ]

unfoldable pub end_tag_open_rule : ℕ → Go
end_tag_open_rule c =
    if c == b'>'
    then go (error ∷ []) (to data_state)
    else if c == 0
    then go (error ∷ clear_comment ∷ push_comment replacement ∷ []) (to bogus_comment)
    else elim (lower_ascii_letter c) [
      | some cl ↦ go (create_tag end_tag cl ∷ []) (to tag_name)
      | none ↦ go (error ∷ clear_comment ∷ push_comment c ∷ []) (to bogus_comment)
    ]

unfoldable pub tag_name_rule : ℕ → Go
tag_name_rule c =
    if is_space c
    then go [] (to before_attribute_name)
    else if c == b'/'
    then go [] (to self_closing_start_tag)
    else if c == b'>'
    then go [] (emit_tag data_state)
    else if c == 0
    then go (error ∷ push_tag replacement ∷ []) stay
    else go (push_tag (lower_ascii c) ∷ []) stay

-- The last arm of the rules before and after an attribute name.
new_attribute : ℕ → Go
new_attribute c = elim (lower_ascii_letter c) [
  | some cl ↦ go (create_attr cl ∷ []) (to attribute_name)
  | none ↦
      if contains (b'"' ∷ b'\'' ∷ b'<' ∷ b'=' ∷ []) c
      then go (error ∷ create_attr c ∷ []) (to attribute_name)
      else go (create_attr c ∷ []) (to attribute_name)
]

unfoldable pub before_attribute_name_rule : ℕ → Go
unfolding new_attribute
before_attribute_name_rule c =
    if is_space c
    then go [] stay
    else if c == b'/'
    then go [] (to self_closing_start_tag)
    else if c == b'>'
    then go [] (emit_tag data_state)
    else if c == 0
    then go (error ∷ create_attr replacement ∷ []) (to attribute_name)
    else new_attribute c

unfoldable pub attribute_name_rule : ℕ → Go
attribute_name_rule c =
    if is_space c
    then go [] (to after_attribute_name)
    else if c == b'/'
    then go [] (to self_closing_start_tag)
    else if c == b'='
    then go [] (to before_attribute_value)
    else if c == b'>'
    then go [] (emit_tag data_state)
    else if c == 0
    then go (error ∷ push_name replacement ∷ []) stay
    else elim (lower_ascii_letter c) [
      | some cl ↦ go (push_name cl ∷ []) stay
      | none ↦
          if contains (b'"' ∷ b'\'' ∷ b'<' ∷ []) c
          then go (error ∷ push_name c ∷ []) stay
          else go (push_name c ∷ []) stay
    ]

-- The last arm of the rule after an attribute name.
next_attribute : ℕ → Go
next_attribute c = elim (lower_ascii_letter c) [
  | some cl ↦ go (create_attr cl ∷ []) (to attribute_name)
  | none ↦
      if contains (b'"' ∷ b'\'' ∷ b'<' ∷ []) c
      then go (error ∷ create_attr c ∷ []) (to attribute_name)
      else go (create_attr c ∷ []) (to attribute_name)
]

unfoldable pub after_attribute_name_rule : ℕ → Go
unfolding next_attribute
after_attribute_name_rule c =
    if is_space c
    then go [] stay
    else if c == b'/'
    then go [] (to self_closing_start_tag)
    else if c == b'='
    then go [] (to before_attribute_value)
    else if c == b'>'
    then go [] (emit_tag data_state)
    else if c == 0
    then go (error ∷ create_attr replacement ∷ []) (to attribute_name)
    else next_attribute c

unfoldable pub before_attribute_value_rule : ℕ → Go
before_attribute_value_rule c =
    if is_space c
    then go [] stay
    else if c == b'"'
    then go [] (to (attribute_value double_quoted))
    else if c == b'&'
    then go [] (reconsume_in (attribute_value unquoted))
    else if c == b'\''
    then go [] (to (attribute_value single_quoted))
    else if c == 0
    then go (error ∷ push_value replacement ∷ []) (to (attribute_value unquoted))
    else if c == b'>'
    then go (error ∷ []) (emit_tag data_state)
    else if contains (b'<' ∷ b'=' ∷ b'`' ∷ []) c
    then go (error ∷ push_value c ∷ []) (to (attribute_value unquoted))
    else go (push_value c ∷ []) (to (attribute_value unquoted))

unfoldable pub after_attribute_value_quoted_rule : ℕ → Go
after_attribute_value_quoted_rule c =
    if is_space c
    then go [] (to before_attribute_name)
    else if c == b'/'
    then go [] (to self_closing_start_tag)
    else if c == b'>'
    then go [] (emit_tag data_state)
    else go (error ∷ []) (reconsume_in before_attribute_name)

unfoldable pub self_closing_start_tag_rule : ℕ → Go
self_closing_start_tag_rule c =
    if c == b'>'
    then go (set_self_closing ∷ []) (emit_tag data_state)
    else go (error ∷ []) (reconsume_in before_attribute_name)
