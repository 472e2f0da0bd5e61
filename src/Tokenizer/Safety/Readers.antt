-- ===== src/Tokenizer/Safety/Readers.antt =====
-- The sets that the states read with, and their rules.
use html.Prelude.{
  ℕ, ◌≡◌, refl, Bool, true, false, ◌&&◌, List, [], ◌∷◌, Text, contains, ltb, arith, some,
}
use html.BufferQueue.{SetResult, from_set, not_from_set}
use html.Util.SmallCharSet.Laws.{AllSmall}
use html.Tokenizer.States.{
  State, rcdata, rawtext, script_data, script_data_escaped, escaped, double_escaped, unquoted,
  single_quoted, double_quoted, data_state, plaintext, raw_data, attribute_value, cdata_section,
}
use html.Tokenizer.Rules.Content.{
  data_rule, rcdata_rule, rawtext_rule, script_data_rule, script_data_escaped_rule,
  script_data_double_escaped_rule, plaintext_rule, double_quoted_rule, single_quoted_rule,
  unquoted_rule,
}
use html.Tokenizer.Actions.{Go}
use html.Tokenizer.Dispatch.{Reader, by_set, by_char, by_keyword, no_reader, reader}
use html.Tokenizer.Safety.Tokens.{HasNoNull}
use html.Tokenizer.Safety.Checks.{no_null, rule_ok, implemented}
use html.Tokenizer.Safety.Runs.{SetOk}

no_null_of : (s : Text) → HasNoNull s → no_null s ≡ true
no_null_of [] h = refl
no_null_of (c ∷ s) h = ground (arith, h.0, no_null_of s h.1)

-- The rule passes the checks on whatever may be read with its set.
abbrev pub SetRuleOk : State → (SetResult → Go) → Type 0
SetRuleOk s rule = (r : SetResult) → SetOk (some r) → rule_ok s (rule r) ≡ true

data-SetRuleOk : SetRuleOk data_state data_rule
unfolding data_rule
data-SetRuleOk (from_set c) h = ground arith
data-SetRuleOk (not_from_set b) h = ground (arith, no_null_of b h)

rcdata-SetRuleOk : SetRuleOk (raw_data rcdata) rcdata_rule
unfolding rcdata_rule
rcdata-SetRuleOk (from_set c) h = ground arith
rcdata-SetRuleOk (not_from_set b) h = ground (arith, no_null_of b h)

rawtext-SetRuleOk : SetRuleOk (raw_data rawtext) rawtext_rule
unfolding rawtext_rule
rawtext-SetRuleOk (from_set c) h = ground arith
rawtext-SetRuleOk (not_from_set b) h = ground (arith, no_null_of b h)

script_data-SetRuleOk : SetRuleOk (raw_data script_data) script_data_rule
unfolding script_data_rule
script_data-SetRuleOk (from_set c) h = ground arith
script_data-SetRuleOk (not_from_set b) h = ground (arith, no_null_of b h)

escaped-SetRuleOk : SetRuleOk (raw_data (script_data_escaped escaped)) script_data_escaped_rule
unfolding script_data_escaped_rule
escaped-SetRuleOk (from_set c) h = ground arith
escaped-SetRuleOk (not_from_set b) h = ground (arith, no_null_of b h)

double_escaped-SetRuleOk :
    SetRuleOk (raw_data (script_data_escaped double_escaped)) script_data_double_escaped_rule
unfolding script_data_double_escaped_rule
double_escaped-SetRuleOk (from_set c) h = ground arith
double_escaped-SetRuleOk (not_from_set b) h = ground (arith, no_null_of b h)

plaintext-SetRuleOk : SetRuleOk plaintext plaintext_rule
unfolding plaintext_rule
plaintext-SetRuleOk (from_set c) h = ground arith
plaintext-SetRuleOk (not_from_set b) h = ground (arith, no_null_of b h)

double_quoted-SetRuleOk : SetRuleOk (attribute_value double_quoted) double_quoted_rule
unfolding double_quoted_rule
double_quoted-SetRuleOk (from_set c) h = ground arith
double_quoted-SetRuleOk (not_from_set b) h = ground (arith, no_null_of b h)

single_quoted-SetRuleOk : SetRuleOk (attribute_value single_quoted) single_quoted_rule
unfolding single_quoted_rule
single_quoted-SetRuleOk (from_set c) h = ground arith
single_quoted-SetRuleOk (not_from_set b) h = ground (arith, no_null_of b h)

unquoted-SetRuleOk : SetRuleOk (attribute_value unquoted) unquoted_rule
unfolding unquoted_rule
unquoted-SetRuleOk (from_set c) h = ground arith
unquoted-SetRuleOk (not_from_set b) h = ground (arith, no_null_of b h)

abbrev pub every_small : List ℕ → Bool
every_small [] = true
every_small (e ∷ es) = ltb e 64 && every_small es

-- A reader of a state: a set of small characters with U+0000, and a rule that passes the checks. Only
-- the state that is not implemented has none.
abbrev pub ReaderOk : State → Reader → Type 0
ReaderOk s (by_set es rule) = (every_small es ≡ true) × (contains es 0 ≡ true) × SetRuleOk s rule
ReaderOk s by_char = Unit
ReaderOk s by_keyword = Unit
ReaderOk s no_reader = implemented s ≡ false

pub AllSmall-by_test : (es : List ℕ) → every_small es ≡ true → AllSmall es
AllSmall-by_test [] h = tt
AllSmall-by_test (e ∷ es) h = (ground arith, AllSmall-by_test es (ground arith))

pub reader-ReaderOk : (s : State) → ReaderOk s (reader s)
unfolding reader
reader-ReaderOk data_state = (refl, refl, data-SetRuleOk)
reader-ReaderOk (raw_data rcdata) = (refl, refl, rcdata-SetRuleOk)
reader-ReaderOk (raw_data rawtext) = (refl, refl, rawtext-SetRuleOk)
reader-ReaderOk (raw_data script_data) = (refl, refl, script_data-SetRuleOk)
reader-ReaderOk (raw_data (script_data_escaped escaped)) = (refl, refl, escaped-SetRuleOk)
reader-ReaderOk (raw_data (script_data_escaped double_escaped)) =
    (refl, refl, double_escaped-SetRuleOk)
reader-ReaderOk plaintext = (refl, refl, plaintext-SetRuleOk)
reader-ReaderOk (attribute_value double_quoted) = (refl, refl, double_quoted-SetRuleOk)
reader-ReaderOk (attribute_value single_quoted) = (refl, refl, single_quoted-SetRuleOk)
reader-ReaderOk (attribute_value unquoted) = (refl, refl, unquoted-SetRuleOk)
reader-ReaderOk cdata_section = refl
reader-ReaderOk _ = tt
