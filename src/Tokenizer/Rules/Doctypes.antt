-- ===== src/Tokenizer/Rules/Doctypes.antt =====
-- The states of document type declarations, and the states that look for a keyword.
use html.Prelude.{ℕ, [], ◌∷◌, ◌==◌, if◌then◌else◌}
use html.Util.Str.{lower_ascii}
use html.Tokenizer.States.{
  DoctypeIdKind, public, system, data_state, before_doctype_name, doctype_name, after_doctype_name,
  before_doctype_identifier, doctype_identifier_double_quoted, doctype_identifier_single_quoted,
  after_doctype_identifier, between_doctype_public_and_system_identifiers, bogus_doctype,
}
use html.Tokenizer.Actions.{
  Go, go, stay, to, reconsume_in, create_doctype, push_doctype_name, push_doctype_id,
  clear_doctype_id, force_quirks, emit_doctype, error, replacement,
}
use html.Tokenizer.Rules.Content.{is_space}

unfoldable pub doctype_rule : ℕ → Go
doctype_rule c =
    if is_space c
    then go [] (to before_doctype_name)
    else go (error ∷ []) (reconsume_in before_doctype_name)

unfoldable pub before_doctype_name_rule : ℕ → Go
before_doctype_name_rule c =
    if is_space c
    then go [] stay
    else if c == 0
    then go (error ∷ create_doctype ∷ push_doctype_name replacement ∷ []) (to doctype_name)
    else if c == b'>'
    then go (error ∷ create_doctype ∷ force_quirks ∷ emit_doctype ∷ []) (to data_state)
    else go (create_doctype ∷ push_doctype_name (lower_ascii c) ∷ []) (to doctype_name)

unfoldable pub doctype_name_rule : ℕ → Go
doctype_name_rule c =
    if is_space c
    then go [] (to after_doctype_name)
    else if c == b'>'
    then go (emit_doctype ∷ []) (to data_state)
    else if c == 0
    then go (error ∷ push_doctype_name replacement ∷ []) stay
    else go (push_doctype_name (lower_ascii c) ∷ []) stay

-- Behind the two keywords.
unfoldable pub after_doctype_name_rule : ℕ → Go
after_doctype_name_rule c =
    if is_space c
    then go [] stay
    else if c == b'>'
    then go (emit_doctype ∷ []) (to data_state)
    else go (error ∷ force_quirks ∷ []) (to bogus_doctype)

unfoldable pub after_doctype_keyword_rule : DoctypeIdKind → ℕ → Go
after_doctype_keyword_rule kind c =
    if is_space c
    then go [] (to (before_doctype_identifier kind))
    else if c == b'"'
    then go (error ∷ clear_doctype_id kind ∷ []) (to (doctype_identifier_double_quoted kind))
    else if c == b'\''
    then go (error ∷ clear_doctype_id kind ∷ []) (to (doctype_identifier_single_quoted kind))
    else if c == b'>'
    then go (error ∷ force_quirks ∷ emit_doctype ∷ []) (to data_state)
    else go (error ∷ force_quirks ∷ []) (to bogus_doctype)

unfoldable pub before_doctype_identifier_rule : DoctypeIdKind → ℕ → Go
before_doctype_identifier_rule kind c =
    if is_space c
    then go [] stay
    else if c == b'"'
    then go (clear_doctype_id kind ∷ []) (to (doctype_identifier_double_quoted kind))
    else if c == b'\''
    then go (clear_doctype_id kind ∷ []) (to (doctype_identifier_single_quoted kind))
    else if c == b'>'
    then go (error ∷ force_quirks ∷ emit_doctype ∷ []) (to data_state)
    else go (error ∷ force_quirks ∷ []) (to bogus_doctype)

unfoldable pub doctype_identifier_double_quoted_rule : DoctypeIdKind → ℕ → Go
doctype_identifier_double_quoted_rule kind c =
    if c == b'"'
    then go [] (to (after_doctype_identifier kind))
    else if c == 0
    then go (error ∷ push_doctype_id kind replacement ∷ []) stay
    else if c == b'>'
    then go (error ∷ force_quirks ∷ emit_doctype ∷ []) (to data_state)
    else go (push_doctype_id kind c ∷ []) stay

unfoldable pub doctype_identifier_single_quoted_rule : DoctypeIdKind → ℕ → Go
doctype_identifier_single_quoted_rule kind c =
    if c == b'\''
    then go [] (to (after_doctype_identifier kind))
    else if c == 0
    then go (error ∷ push_doctype_id kind replacement ∷ []) stay
    else if c == b'>'
    then go (error ∷ force_quirks ∷ emit_doctype ∷ []) (to data_state)
    else go (push_doctype_id kind c ∷ []) stay

unfoldable pub after_doctype_identifier_rule : DoctypeIdKind → ℕ → Go
after_doctype_identifier_rule public c =
    if is_space c
    then go [] (to between_doctype_public_and_system_identifiers)
    else if c == b'>'
    then go (emit_doctype ∷ []) (to data_state)
    else if c == b'"'
    then go (error ∷ clear_doctype_id system ∷ []) (to (doctype_identifier_double_quoted system))
    else if c == b'\''
    then go (error ∷ clear_doctype_id system ∷ []) (to (doctype_identifier_single_quoted system))
    else go (error ∷ force_quirks ∷ []) (to bogus_doctype)
after_doctype_identifier_rule system c =
    if is_space c
    then go [] stay
    else if c == b'>'
    then go (emit_doctype ∷ []) (to data_state)
    else go (error ∷ []) (to bogus_doctype)

unfoldable pub between_identifiers_rule : ℕ → Go
between_identifiers_rule c =
    if is_space c
    then go [] stay
    else if c == b'>'
    then go (emit_doctype ∷ []) (to data_state)
    else if c == b'"'
    then go (clear_doctype_id system ∷ []) (to (doctype_identifier_double_quoted system))
    else if c == b'\''
    then go (clear_doctype_id system ∷ []) (to (doctype_identifier_single_quoted system))
    else go (error ∷ force_quirks ∷ []) (to bogus_doctype)

unfoldable pub bogus_doctype_rule : ℕ → Go
bogus_doctype_rule c = if c == b'>' then go (emit_doctype ∷ []) (to data_state) else go [] stay
