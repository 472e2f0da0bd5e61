-- ===== src/Tokenizer/Safety/Rules/Tags.antt =====
-- The rules of tags and attributes pass the checks, whatever character they read.
use html.Prelude.{ℕ, ◌≡◌, true, arith}
use html.Util.Str.Laws.{lower_ascii_letter-eq, lower_ascii-eq-lower}
use html.Tokenizer.States.{State}
use html.Tokenizer.Rules.Tags.{
  tag_open_rule, end_tag_open_rule, tag_name_rule, before_attribute_name_rule, attribute_name_rule,
  after_attribute_name_rule, before_attribute_value_rule, after_attribute_value_quoted_rule,
  self_closing_start_tag_rule,
}
use html.Tokenizer.Safety.Checks.{char_rule_ok}

pub tag_open-ok : (s : State) (c : ℕ) → char_rule_ok s (tag_open_rule c) ≡ true
unfolding tag_open_rule
tag_open-ok s c = ground (arith, lower_ascii_letter-eq c, lower_ascii-eq-lower c)

pub end_tag_open-ok : (s : State) (c : ℕ) → char_rule_ok s (end_tag_open_rule c) ≡ true
unfolding end_tag_open_rule
end_tag_open-ok s c = ground (arith, lower_ascii_letter-eq c, lower_ascii-eq-lower c)

pub tag_name-ok : (s : State) (c : ℕ) → char_rule_ok s (tag_name_rule c) ≡ true
unfolding tag_name_rule
tag_name-ok s c = ground (arith, lower_ascii_letter-eq c, lower_ascii-eq-lower c)

pub before_attribute_name-ok :
    (s : State) (c : ℕ) → char_rule_ok s (before_attribute_name_rule c) ≡ true
unfolding before_attribute_name_rule
before_attribute_name-ok s c = ground (arith, lower_ascii_letter-eq c, lower_ascii-eq-lower c)

pub attribute_name-ok : (s : State) (c : ℕ) → char_rule_ok s (attribute_name_rule c) ≡ true
unfolding attribute_name_rule
attribute_name-ok s c = ground (arith, lower_ascii_letter-eq c, lower_ascii-eq-lower c)

pub after_attribute_name-ok :
    (s : State) (c : ℕ) → char_rule_ok s (after_attribute_name_rule c) ≡ true
unfolding after_attribute_name_rule
after_attribute_name-ok s c = ground (arith, lower_ascii_letter-eq c, lower_ascii-eq-lower c)

pub before_attribute_value-ok :
    (s : State) (c : ℕ) → char_rule_ok s (before_attribute_value_rule c) ≡ true
unfolding before_attribute_value_rule
before_attribute_value-ok s c = ground (arith, lower_ascii_letter-eq c, lower_ascii-eq-lower c)

pub after_attribute_value_quoted-ok :
    (s : State) (c : ℕ) → char_rule_ok s (after_attribute_value_quoted_rule c) ≡ true
unfolding after_attribute_value_quoted_rule
after_attribute_value_quoted-ok s c =
    ground (arith, lower_ascii_letter-eq c, lower_ascii-eq-lower c)

pub self_closing_start_tag-ok :
    (s : State) (c : ℕ) → char_rule_ok s (self_closing_start_tag_rule c) ≡ true
unfolding self_closing_start_tag_rule
self_closing_start_tag-ok s c = ground (arith, lower_ascii_letter-eq c, lower_ascii-eq-lower c)
