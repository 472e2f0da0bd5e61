-- ===== src/Tokenizer/Safety/Rules/Script.antt =====
-- The rules of raw text and script data pass the checks, whatever character they read.
use html.Prelude.{ℕ, ◌≡◌, Bool, true, false, arith}
use html.Util.Str.Laws.{lower_ascii_letter-eq, lower_ascii-eq-lower}
use html.Tokenizer.States.{
  State, RawKind, ScriptEscapeKind, escaped, double_escaped, rcdata, rawtext, script_data,
  script_data_escaped,
}
use html.Tokenizer.Rules.Script.{
  less_than_rule, raw_end_tag_open_rule, raw_end_tag_name_rule, double_escape_start_rule,
  escape_start_rule, escape_start_dash_rule, escaped_dash_rule, escaped_dash_dash_rule,
  double_escape_end_rule,
}
use html.Tokenizer.Safety.Checks.{char_rule_ok}

pub less_than-ok : (s : State) (k : RawKind) (c : ℕ) → char_rule_ok s (less_than_rule k c) ≡ true
unfolding less_than_rule
less_than-ok s rcdata c = ground (arith, lower_ascii_letter-eq c, lower_ascii-eq-lower c)
less_than-ok s rawtext c = ground (arith, lower_ascii_letter-eq c, lower_ascii-eq-lower c)
less_than-ok s script_data c = ground (arith, lower_ascii_letter-eq c, lower_ascii-eq-lower c)
less_than-ok s (script_data_escaped escaped) c =
    ground (arith, lower_ascii_letter-eq c, lower_ascii-eq-lower c)
less_than-ok s (script_data_escaped double_escaped) c =
    ground (arith, lower_ascii_letter-eq c, lower_ascii-eq-lower c)

pub raw_end_tag_open-ok :
    (s : State) (k : RawKind) (c : ℕ) → char_rule_ok s (raw_end_tag_open_rule k c) ≡ true
unfolding raw_end_tag_open_rule
raw_end_tag_open-ok s rcdata c = ground (arith, lower_ascii_letter-eq c, lower_ascii-eq-lower c)
raw_end_tag_open-ok s rawtext c = ground (arith, lower_ascii_letter-eq c, lower_ascii-eq-lower c)
raw_end_tag_open-ok s script_data c =
    ground (arith, lower_ascii_letter-eq c, lower_ascii-eq-lower c)
raw_end_tag_open-ok s (script_data_escaped escaped) c =
    ground (arith, lower_ascii_letter-eq c, lower_ascii-eq-lower c)
raw_end_tag_open-ok s (script_data_escaped double_escaped) c =
    ground (arith, lower_ascii_letter-eq c, lower_ascii-eq-lower c)

pub raw_end_tag_name-ok :
    (s : State) (k : RawKind) (b : Bool) (c : ℕ)
    → char_rule_ok s (raw_end_tag_name_rule k b c) ≡ true
unfolding raw_end_tag_name_rule
raw_end_tag_name-ok s rcdata true c =
    ground (arith, lower_ascii_letter-eq c, lower_ascii-eq-lower c)
raw_end_tag_name-ok s rcdata false c =
    ground (arith, lower_ascii_letter-eq c, lower_ascii-eq-lower c)
raw_end_tag_name-ok s rawtext true c =
    ground (arith, lower_ascii_letter-eq c, lower_ascii-eq-lower c)
raw_end_tag_name-ok s rawtext false c =
    ground (arith, lower_ascii_letter-eq c, lower_ascii-eq-lower c)
raw_end_tag_name-ok s script_data true c =
    ground (arith, lower_ascii_letter-eq c, lower_ascii-eq-lower c)
raw_end_tag_name-ok s script_data false c =
    ground (arith, lower_ascii_letter-eq c, lower_ascii-eq-lower c)
raw_end_tag_name-ok s (script_data_escaped escaped) true c =
    ground (arith, lower_ascii_letter-eq c, lower_ascii-eq-lower c)
raw_end_tag_name-ok s (script_data_escaped escaped) false c =
    ground (arith, lower_ascii_letter-eq c, lower_ascii-eq-lower c)
raw_end_tag_name-ok s (script_data_escaped double_escaped) true c =
    ground (arith, lower_ascii_letter-eq c, lower_ascii-eq-lower c)
raw_end_tag_name-ok s (script_data_escaped double_escaped) false c =
    ground (arith, lower_ascii_letter-eq c, lower_ascii-eq-lower c)

pub double_escape_start-ok :
    (s : State) (b : Bool) (c : ℕ) → char_rule_ok s (double_escape_start_rule b c) ≡ true
unfolding double_escape_start_rule
double_escape_start-ok s true c = ground (arith, lower_ascii_letter-eq c, lower_ascii-eq-lower c)
double_escape_start-ok s false c = ground (arith, lower_ascii_letter-eq c, lower_ascii-eq-lower c)

pub escape_start-ok : (s : State) (c : ℕ) → char_rule_ok s (escape_start_rule c) ≡ true
unfolding escape_start_rule
escape_start-ok s c = ground (arith, lower_ascii_letter-eq c, lower_ascii-eq-lower c)

pub escape_start_dash-ok : (s : State) (c : ℕ) → char_rule_ok s (escape_start_dash_rule c) ≡ true
unfolding escape_start_dash_rule
escape_start_dash-ok s c = ground (arith, lower_ascii_letter-eq c, lower_ascii-eq-lower c)

pub escaped_dash-ok :
    (s : State) (k : ScriptEscapeKind) (c : ℕ) → char_rule_ok s (escaped_dash_rule k c) ≡ true
unfolding escaped_dash_rule
escaped_dash-ok s escaped c = ground (arith, lower_ascii_letter-eq c, lower_ascii-eq-lower c)
escaped_dash-ok s double_escaped c = ground (arith, lower_ascii_letter-eq c, lower_ascii-eq-lower c)

pub escaped_dash_dash-ok :
    (s : State) (k : ScriptEscapeKind) (c : ℕ) → char_rule_ok s (escaped_dash_dash_rule k c) ≡ true
unfolding escaped_dash_dash_rule
escaped_dash_dash-ok s escaped c = ground (arith, lower_ascii_letter-eq c, lower_ascii-eq-lower c)
escaped_dash_dash-ok s double_escaped c =
    ground (arith, lower_ascii_letter-eq c, lower_ascii-eq-lower c)

pub double_escape_end-ok :
    (s : State) (b : Bool) (c : ℕ) → char_rule_ok s (double_escape_end_rule b c) ≡ true
unfolding double_escape_end_rule
double_escape_end-ok s true c = ground (arith, lower_ascii_letter-eq c, lower_ascii-eq-lower c)
double_escape_end-ok s false c = ground (arith, lower_ascii_letter-eq c, lower_ascii-eq-lower c)
