-- ===== src/Tokenizer/Safety/Rules/Comments.antt =====
-- The rules of comments pass the checks, whatever character they read.
use html.Prelude.{ℕ, ◌≡◌, true, arith}
use html.Util.Str.Laws.{lower_ascii_letter-eq, lower_ascii-eq-lower}
use html.Tokenizer.States.{State}
use html.Tokenizer.Rules.Comments.{
  comment_start_rule, comment_start_dash_rule, comment_rule, comment_end_dash_rule,
  comment_end_rule, comment_end_bang_rule, bogus_comment_rule,
}
use html.Tokenizer.Safety.Checks.{char_rule_ok}

pub comment_start-ok : (s : State) (c : ℕ) → char_rule_ok s (comment_start_rule c) ≡ true
unfolding comment_start_rule
comment_start-ok s c = ground (arith, lower_ascii_letter-eq c, lower_ascii-eq-lower c)

pub comment_start_dash-ok : (s : State) (c : ℕ) → char_rule_ok s (comment_start_dash_rule c) ≡ true
unfolding comment_start_dash_rule
comment_start_dash-ok s c = ground (arith, lower_ascii_letter-eq c, lower_ascii-eq-lower c)

pub comment-ok : (s : State) (c : ℕ) → char_rule_ok s (comment_rule c) ≡ true
unfolding comment_rule
comment-ok s c = ground (arith, lower_ascii_letter-eq c, lower_ascii-eq-lower c)

pub comment_end_dash-ok : (s : State) (c : ℕ) → char_rule_ok s (comment_end_dash_rule c) ≡ true
unfolding comment_end_dash_rule
comment_end_dash-ok s c = ground (arith, lower_ascii_letter-eq c, lower_ascii-eq-lower c)

pub comment_end-ok : (s : State) (c : ℕ) → char_rule_ok s (comment_end_rule c) ≡ true
unfolding comment_end_rule
comment_end-ok s c = ground (arith, lower_ascii_letter-eq c, lower_ascii-eq-lower c)

pub comment_end_bang-ok : (s : State) (c : ℕ) → char_rule_ok s (comment_end_bang_rule c) ≡ true
unfolding comment_end_bang_rule
comment_end_bang-ok s c = ground (arith, lower_ascii_letter-eq c, lower_ascii-eq-lower c)

pub bogus_comment-ok : (s : State) (c : ℕ) → char_rule_ok s (bogus_comment_rule c) ≡ true
unfolding bogus_comment_rule
bogus_comment-ok s c = ground (arith, lower_ascii_letter-eq c, lower_ascii-eq-lower c)
