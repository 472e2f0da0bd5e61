-- ===== src/Tokenizer/CharRef.antt =====
-- src/tokenizer/char_ref/mod.rs: the tokenizer of character references. It works on the state of
-- the main tokenizer, which it is handed at each step.
pub mod Numeric
pub mod Numbers
pub mod Named
pub mod Values
use html.Prelude.{
  ℕ, Bool, true, false, Option, none, some, [], ◌∷◌, if◌then◌else◌, Text, codes, Checked, ok, panic,
  ◌>>=◌, expect, zero, suc,
}
use html.Tokenizer.Interface.{Externals, static}
use html.Tokenizer.Machine.{
  Tokenizer, RefState, begin, octothorpe, numeric, numeric_semicolon, named, bogus_name, CharRef,
  CharRefTokenizer, unconsume, emit_error,
}
use Numbers.{
  Status, done, finish_none, Stepped, do_begin, do_octothorpe, do_numeric, do_numeric_semicolon,
  unconsume_numeric, finish_numeric,
}
use Named.{do_named, do_bogus_name, finish_named, unconsume_name}

module _ (x : Externals) where
  step_in : RefState → CharRefTokenizer → Tokenizer x → Stepped x
  step_in begin r t = do_begin x r t
  step_in octothorpe r t = do_octothorpe x r t
  step_in (numeric base) r t = do_numeric x r t base
  step_in numeric_semicolon r t = do_numeric_semicolon x r t
  step_in named r t = do_named x r t
  step_in bogus_name r t = do_bogus_name x r t

  -- `CharRefTokenizer::step`.
  unfoldable pub step : CharRefTokenizer → Tokenizer x → Stepped x
  unfolding step_in
  step r t = elim r.result [ some _ ↦ ok (done, r, t) | none ↦ step_in r.state r t ]

  -- The arms of the loop of `end_of_file` that end a number.
  eof_numeric : CharRefTokenizer → Tokenizer x → Checked (CharRefTokenizer × Tokenizer x)
  eof_numeric r t =
      finish_numeric x r (emit_error x t (static (codes "EOF in numeric character reference")))

  -- One round of the loop of `end_of_file`, by its state.
  eof_in : RefState → CharRefTokenizer → Tokenizer x → Checked (CharRefTokenizer × Tokenizer x)
  unfolding eof_numeric
  eof_in begin r t = ok (finish_none r, t)
  eof_in (numeric base) r t = if r.seen_digit then eof_numeric r t else ok (unconsume_numeric x r t)
  eof_in numeric_semicolon r t = eof_numeric r t
  eof_in named r t = do (_, r', t') ← finish_named x r t none; ok (r', t')
  eof_in bogus_name r t = do (r', t') ← unconsume_name x r t; ok (finish_none r', t')
  eof_in octothorpe r t = ok (
    finish_none r,
    emit_error x (unconsume x t (b'#' ∷ []))
        (static (codes "EOF after '#' in character reference")),
  )

  -- The loop of `end_of_file` runs while there is no result; `none` is that the fuel ran out.
  unfoldable pub end_of_file :
      ℕ → CharRefTokenizer → Tokenizer x → Checked (Option (CharRefTokenizer × Tokenizer x))
  unfolding eof_in
  end_of_file zero r t = ok none
  end_of_file (suc fuel) r t = elim r.result [
    | some _ ↦ ok (some (r, t))
    | none ↦ eof_in r.state r t >>= λ s. end_of_file fuel s.0 s.1
  ]
