-- ===== src/Tokenizer/CharRef/Numbers.antt =====
-- src/tokenizer/char_ref/mod.rs: the first characters of a reference, and numeric references.
use html.Prelude.{
  ℕ, ◌+◌, ◌*◌, ◌%◌, ◌^◌, Bool, true, false, not, ◌||◌, Option, none, some, [], ◌∷◌, ltb, ◌==◌,
  if◌then◌else◌, Text, codes, Checked, ok, ◌>>=◌,
}
use html.Tokenizer.Interface.{Externals, static, invalid_numeric_value}
use html.Tokenizer.Machine.{
  Tokenizer, octothorpe, numeric, numeric_semicolon, named, CharRef, CharRefTokenizer, peek,
  discard_char, unconsume, emit_error,
}
use html.Tokenizer.CharRef.Numeric.{to_digit, finish_value}

pub data Status : Type 0 where
  stuck progress done : Status

-- `Some(c) == self.addnl_allowed`
unfoldable pub is_addnl : Option ℕ → ℕ → Bool
is_addnl none c = false
is_addnl (some a) c = c == a

abbrev pub no_chars : CharRef
no_chars = record { char0 = 0; char1 = 0; num_chars = 0 }

abbrev pub finish_none : CharRefTokenizer → CharRefTokenizer
finish_none r = record r { result = some no_chars }

abbrev pub finish_one : CharRefTokenizer → ℕ → CharRefTokenizer
finish_one r c = record r { result = some (record { char0 = c; char1 = 0; num_chars = 1 }) }

-- One more digit `n`, in the arithmetic of `u32`.
unfoldable pub push_digit : CharRefTokenizer → ℕ → ℕ → CharRefTokenizer
push_digit r base n =
    let scaled = r.num * base % 2 ^ 32 in
    record r {
      num = (scaled + n) % 2 ^ 32;
      num_too_big = r.num_too_big || ltb 0x10FFFF scaled;
      seen_digit = true;
    }

module _ (x : Externals) where
  -- What a step returns: its status, and the two tokenizers.
  abbrev pub Stepped : Type 0
  Stepped = Checked (Status × CharRefTokenizer × Tokenizer x)

  begin_on : CharRefTokenizer → Tokenizer x → Option ℕ → Stepped
  unfolding is_addnl
  begin_on r t none = ok (stuck, r, t)
  begin_on r t (some c) =
      if c == b'\t' || c == b'\n' || c == 0x0C || c == b' ' || c == b'<' || c == b'&'
      then ok (done, finish_none r, t)
      else if is_addnl r.addnl_allowed c
      then ok (done, finish_none r, t)
      else if c == b'#'
      then (discard_char x t >>= λ t'. ok (progress, record r { state = octothorpe }, t'))
      else ok (progress, record r { state = named; name_buf_opt = some [] }, t)

  unfoldable pub do_begin : CharRefTokenizer → Tokenizer x → Stepped
  unfolding begin_on
  do_begin r t = peek x t >>= begin_on r t

  octothorpe_on : CharRefTokenizer → Tokenizer x → Option ℕ → Stepped
  octothorpe_on r t none = ok (stuck, r, t)
  octothorpe_on r t (some c) =
      if c == b'x' || c == b'X'
      then (discard_char x t >>= λ t'.
          ok (progress, record r { hex_marker = some c; state = numeric 16 }, t'))
      else ok (progress, record r { hex_marker = none; state = numeric 10 }, t)

  unfoldable pub do_octothorpe : CharRefTokenizer → Tokenizer x → Stepped
  unfolding octothorpe_on
  do_octothorpe r t = peek x t >>= octothorpe_on r t

  -- '#' and the marker of a hexadecimal reference.
  abbrev pub numeric_prefix : Option ℕ → Text
  numeric_prefix none = b'#' ∷ []
  numeric_prefix (some c) = b'#' ∷ c ∷ []

  unfoldable pub unconsume_numeric : CharRefTokenizer → Tokenizer x → CharRefTokenizer × Tokenizer x
  unfolding unconsume emit_error
  unconsume_numeric r t = (
    finish_none r,
    emit_error x (unconsume x t (numeric_prefix r.hex_marker))
        (static (codes "Numeric character reference without digits")),
  )

  digit_on : CharRefTokenizer → Tokenizer x → ℕ → Option ℕ → Stepped
  unfolding push_digit unconsume_numeric
  digit_on r t base (some n) = discard_char x t >>= λ t'. ok (progress, push_digit r base n, t')
  digit_on r t base none =
      if not r.seen_digit
      then (let (r', t') = unconsume_numeric r t in ok (done, r', t'))
      else ok (progress, record r { state = numeric_semicolon }, t)

  numeric_on : CharRefTokenizer → Tokenizer x → ℕ → Option ℕ → Stepped
  unfolding digit_on
  numeric_on r t base none = ok (stuck, r, t)
  numeric_on r t base (some c) = digit_on r t base (to_digit c base)

  unfoldable pub do_numeric : CharRefTokenizer → Tokenizer x → ℕ → Stepped
  unfolding numeric_on
  do_numeric r t base = peek x t >>= numeric_on r t base

  unfoldable pub finish_numeric :
      CharRefTokenizer → Tokenizer x → Checked (CharRefTokenizer × Tokenizer x)
  unfolding emit_error
  finish_numeric r t = do
    (c, error) ← finish_value r.num r.num_too_big
    let msg =
        if t.opts.exact_errors
        then invalid_numeric_value r.num
        else static (codes "Invalid numeric character reference")
    ok (finish_one r c, (if error then emit_error x t msg else t))

  finish_done : CharRefTokenizer → Tokenizer x → Stepped
  unfolding finish_numeric
  finish_done r t = do (r', t') ← finish_numeric r t; ok (done, r', t')

  semicolon_on : CharRefTokenizer → Tokenizer x → Option ℕ → Stepped
  unfolding finish_done emit_error
  semicolon_on r t none = ok (stuck, r, t)
  semicolon_on r t (some c) =
      if c == b';'
      then (discard_char x t >>= λ t'. finish_done r t')
      else finish_done r
          (emit_error x t (static (codes "Semicolon missing after numeric character reference")))

  unfoldable pub do_numeric_semicolon : CharRefTokenizer → Tokenizer x → Stepped
  unfolding semicolon_on
  do_numeric_semicolon r t = peek x t >>= semicolon_on r t
