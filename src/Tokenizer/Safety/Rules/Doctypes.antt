-- ===== src/Tokenizer/Safety/Rules/Doctypes.antt =====
-- The rules of document types pass the checks, whatever character they read.
use html.Prelude.{ℕ, ◌≡◌, true, arith}
use html.Util.Str.Laws.{lower_ascii_letter-eq, lower_ascii-eq-lower}
use html.Tokenizer.States.{State, DoctypeIdKind, public, system}
use html.Tokenizer.Rules.Doctypes.{
  doctype_rule, before_doctype_name_rule, doctype_name_rule, after_doctype_name_rule,
  after_doctype_keyword_rule, before_doctype_identifier_rule, doctype_identifier_double_quoted_rule,
  doctype_identifier_single_quoted_rule, after_doctype_identifier_rule, between_identifiers_rule,
  bogus_doctype_rule,
}
use html.Tokenizer.Safety.Checks.{char_rule_ok}

pub doctype-ok : (s : State) (c : ℕ) → char_rule_ok s (doctype_rule c) ≡ true
unfolding doctype_rule
doctype-ok s c = ground (arith, lower_ascii_letter-eq c, lower_ascii-eq-lower c)

pub before_doctype_name-ok :
    (s : State) (c : ℕ) → char_rule_ok s (before_doctype_name_rule c) ≡ true
unfolding before_doctype_name_rule
before_doctype_name-ok s c = ground (arith, lower_ascii_letter-eq c, lower_ascii-eq-lower c)

pub doctype_name-ok : (s : State) (c : ℕ) → char_rule_ok s (doctype_name_rule c) ≡ true
unfolding doctype_name_rule
doctype_name-ok s c = ground (arith, lower_ascii_letter-eq c, lower_ascii-eq-lower c)

pub after_doctype_name-ok : (s : State) (c : ℕ) → char_rule_ok s (after_doctype_name_rule c) ≡ true
unfolding after_doctype_name_rule
after_doctype_name-ok s c = ground (arith, lower_ascii_letter-eq c, lower_ascii-eq-lower c)

pub after_doctype_keyword-ok :
    (s : State) (k : DoctypeIdKind) (c : ℕ) → char_rule_ok s (after_doctype_keyword_rule k c) ≡ true
unfolding after_doctype_keyword_rule
after_doctype_keyword-ok s public c =
    ground (arith, lower_ascii_letter-eq c, lower_ascii-eq-lower c)
after_doctype_keyword-ok s system c =
    ground (arith, lower_ascii_letter-eq c, lower_ascii-eq-lower c)

pub before_doctype_identifier-ok :
    (s : State) (k : DoctypeIdKind) (c : ℕ)
    → char_rule_ok s (before_doctype_identifier_rule k c) ≡ true
unfolding before_doctype_identifier_rule
before_doctype_identifier-ok s public c =
    ground (arith, lower_ascii_letter-eq c, lower_ascii-eq-lower c)
before_doctype_identifier-ok s system c =
    ground (arith, lower_ascii_letter-eq c, lower_ascii-eq-lower c)

pub doctype_identifier_double_quoted-ok :
    (s : State) (k : DoctypeIdKind) (c : ℕ)
    → char_rule_ok s (doctype_identifier_double_quoted_rule k c) ≡ true
unfolding doctype_identifier_double_quoted_rule
doctype_identifier_double_quoted-ok s public c =
    ground (arith, lower_ascii_letter-eq c, lower_ascii-eq-lower c)
doctype_identifier_double_quoted-ok s system c =
    ground (arith, lower_ascii_letter-eq c, lower_ascii-eq-lower c)

pub doctype_identifier_single_quoted-ok :
    (s : State) (k : DoctypeIdKind) (c : ℕ)
    → char_rule_ok s (doctype_identifier_single_quoted_rule k c) ≡ true
unfolding doctype_identifier_single_quoted_rule
doctype_identifier_single_quoted-ok s public c =
    ground (arith, lower_ascii_letter-eq c, lower_ascii-eq-lower c)
doctype_identifier_single_quoted-ok s system c =
    ground (arith, lower_ascii_letter-eq c, lower_ascii-eq-lower c)

pub after_doctype_identifier-ok :
    (s : State) (k : DoctypeIdKind) (c : ℕ)
    → char_rule_ok s (after_doctype_identifier_rule k c) ≡ true
unfolding after_doctype_identifier_rule
after_doctype_identifier-ok s public c =
    ground (arith, lower_ascii_letter-eq c, lower_ascii-eq-lower c)
after_doctype_identifier-ok s system c =
    ground (arith, lower_ascii_letter-eq c, lower_ascii-eq-lower c)

pub between_identifiers-ok :
    (s : State) (c : ℕ) → char_rule_ok s (between_identifiers_rule c) ≡ true
unfolding between_identifiers_rule
between_identifiers-ok s c = ground (arith, lower_ascii_letter-eq c, lower_ascii-eq-lower c)

pub bogus_doctype-ok : (s : State) (c : ℕ) → char_rule_ok s (bogus_doctype_rule c) ≡ true
unfolding bogus_doctype_rule
bogus_doctype-ok s c = ground (arith, lower_ascii_letter-eq c, lower_ascii-eq-lower c)
