-- ===== src/Tokenizer/Rules/Comments.antt =====
-- The states of comments.
use html.Prelude.{ℕ, [], ◌∷◌, ◌==◌, if◌then◌else◌}
use html.Tokenizer.States.{
  data_state, comment_start_dash, comment, comment_end_dash, comment_end, comment_end_bang,
}
use html.Tokenizer.Actions.{
  Go, go, stay, to, push_comment, append_comment, emit_comment, error, replacement,
}

unfoldable pub comment_start_rule : ℕ → Go
comment_start_rule c =
    if c == b'-'
    then go [] (to comment_start_dash)
    else if c == 0
    then go (error ∷ push_comment replacement ∷ []) (to comment)
    else if c == b'>'
    then go (error ∷ emit_comment ∷ []) (to data_state)
    else go (push_comment c ∷ []) (to comment)

unfoldable pub comment_start_dash_rule : ℕ → Go
comment_start_dash_rule c =
    if c == b'-'
    then go [] (to comment_end)
    else if c == 0
    then go (error ∷ append_comment (b'-' ∷ replacement ∷ []) ∷ []) (to comment)
    else if c == b'>'
    then go (error ∷ emit_comment ∷ []) (to data_state)
    else go (push_comment b'-' ∷ push_comment c ∷ []) (to comment)

unfoldable pub comment_rule : ℕ → Go
comment_rule c =
    if c == b'-'
    then go [] (to comment_end_dash)
    else if c == 0
    then go (error ∷ push_comment replacement ∷ []) stay
    else go (push_comment c ∷ []) stay

unfoldable pub comment_end_dash_rule : ℕ → Go
comment_end_dash_rule c =
    if c == b'-'
    then go [] (to comment_end)
    else if c == 0
    then go (error ∷ append_comment (b'-' ∷ replacement ∷ []) ∷ []) (to comment)
    else go (push_comment b'-' ∷ push_comment c ∷ []) (to comment)

unfoldable pub comment_end_rule : ℕ → Go
comment_end_rule c =
    if c == b'>'
    then go (emit_comment ∷ []) (to data_state)
    else if c == 0
    then go (error ∷ append_comment (b'-' ∷ b'-' ∷ replacement ∷ []) ∷ []) (to comment)
    else if c == b'!'
    then go (error ∷ []) (to comment_end_bang)
    else if c == b'-'
    then go (error ∷ push_comment b'-' ∷ []) stay
    else go (error ∷ append_comment (b'-' ∷ b'-' ∷ []) ∷ push_comment c ∷ []) (to comment)

unfoldable pub comment_end_bang_rule : ℕ → Go
comment_end_bang_rule c =
    if c == b'-'
    then go (append_comment (b'-' ∷ b'-' ∷ b'!' ∷ []) ∷ []) (to comment_end_dash)
    else if c == b'>'
    then go (emit_comment ∷ []) (to data_state)
    else if c == 0
    then go (error ∷ append_comment (b'-' ∷ b'-' ∷ b'!' ∷ replacement ∷ []) ∷ []) (to comment)
    else go (append_comment (b'-' ∷ b'-' ∷ b'!' ∷ []) ∷ push_comment c ∷ []) (to comment)

unfoldable pub bogus_comment_rule : ℕ → Go
bogus_comment_rule c =
    if c == b'>'
    then go (emit_comment ∷ []) (to data_state)
    else if c == 0
    then go (push_comment replacement ∷ []) stay
    else go (push_comment c ∷ []) stay
