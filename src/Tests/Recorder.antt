-- ===== src/Tests/Recorder.antt =====
-- A sink that records the tokens, and a small table of named references.
use html.Prelude.{
  ℕ, true, false, Option, none, some, List, [], ◌∷◌, ◌++◌, Text, codes, text_eq, if◌then◌else◌,
  refl,
}
use html.Tokenizer.Interface.{Externals, Token}
use html.Tokenizer.Machine.{TokenizerOpts}

abbrev sample_entities : Text → Option (ℕ × ℕ)
sample_entities s =
    if text_eq s (codes "amp;")
    then some (b'&', 0)
    else if text_eq s (codes "amp")
    then some (b'&', 0)
    else if text_eq s (codes "am")
    then some (0, 0)
    else if text_eq s (codes "a")
    then some (0, 0)
    else if text_eq s []
    then some (0, 0)
    else none

abbrev pub recorder : Externals
recorder = record {
  Atom = Text;
  from_slice = λ s. s;
  as_slice = λ s. s;
  as_slice-from_slice = λ s. refl;
  Sink = List (Token Text);
  process_token = λ sink token. sink ++ token ∷ [];
  query_state_change = λ sink. (none, sink);
  find_entity = sample_entities;
}

abbrev pub default_opts : TokenizerOpts
default_opts = record {
  exact_errors = false;
  discard_bom = true;
  profile = false;
  initial_state = none;
  last_start_tag_name = none;
}
