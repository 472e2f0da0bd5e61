-- ===== src/Tokenizer/CharRef/Named.antt =====
-- src/tokenizer/char_ref/mod.rs: named references.
use html.Prelude.{
  ℕ, ◌-◌, Bool, true, false, ◌&&◌, Option, none, some, [], ◌∷◌, ◌++◌, ltb, ◌==◌, if◌then◌else◌,
  Text, codes, Checked, ok, panic, ◌>>=◌, expect,
}
use html.Util.Utf8.{byte_len, char_at, slice_from}
use html.Util.Str.{is_ascii_alnum}
use html.Tokenizer.Interface.{Externals, Message, static, invalid_reference}
use html.Tokenizer.Machine.{
  Tokenizer, bogus_name, CharRef, CharRefTokenizer, get_char, unconsume, emit_error,
}
use html.Tokenizer.CharRef.Numeric.{from_u32}
use html.Tokenizer.CharRef.Numbers.{stuck, progress, done, finish_none, Stepped}

-- `Some(_)`
is_some : Option ℕ → Bool
is_some none = false
is_some (some a) = true

-- What `unconsume_all` is, and the error that is emitted on the way.
pub data Verdict : Type 0 where
  verdict : Bool → Option Message → Verdict

abbrev pub no_semicolon : Message
no_semicolon = static (codes "Character reference does not end with semicolon")

abbrev pub equals_sign : Message
equals_sign = static (codes "Equals sign after character reference in attribute")

next_verdict : Option ℕ → Verdict
next_verdict none = verdict false (some no_semicolon)
next_verdict (some c) =
    if c == b'='
    then verdict true (some equals_sign)
    else if is_ascii_alnum c
    then verdict true none
    else verdict false (some no_semicolon)

-- `match (self.addnl_allowed, last_matched, next_after)`
unfoldable pub decide_match : Option ℕ → ℕ → Option ℕ → Verdict
unfolding is_some next_verdict
decide_match addnl_allowed last_matched next_after =
    if last_matched == b';'
    then verdict false none
    else if is_some addnl_allowed
    then next_verdict next_after
    else verdict false (some no_semicolon)

-- `next_after`.
unfoldable pub char_after : Text → ℕ → Checked (Option ℕ)
char_after buf len = if len == byte_len buf then ok none else (char_at buf len >>= λ c. ok (some c))

module _ (x : Externals) where
  unfoldable pub emit_name_error : Text → Tokenizer x → Tokenizer x
  unfolding emit_error
  emit_name_error name t = emit_error x t (
      if t.opts.exact_errors
      then invalid_reference name
      else static (codes "Invalid character reference"))

  -- `unconsume_name`; the name is taken out of the state.
  unfoldable pub unconsume_name :
      CharRefTokenizer → Tokenizer x → Checked (CharRefTokenizer × Tokenizer x)
  unfolding unconsume
  unconsume_name r t = do
    buf ← expect r.name_buf_opt
    ok (record r { name_buf_opt = none }, unconsume x t buf)

  unconsume_none : CharRefTokenizer → Tokenizer x → Stepped x
  unfolding unconsume_name
  unconsume_none r t = do (r', t') ← unconsume_name r t; ok (done, finish_none r', t')

  -- `finish_named` with no match.
  finish_unmatched : CharRefTokenizer → Tokenizer x → Text → Option ℕ → Stepped x
  unfolding unconsume_none emit_name_error
  finish_unmatched r t buf none = unconsume_none r t
  finish_unmatched r t buf (some c) =
      if is_ascii_alnum c
      then ok (progress, record r { state = bogus_name }, t)
      else if c == b';' && ltb 1 (byte_len buf)
      then unconsume_none r (emit_name_error buf t)
      else unconsume_none r t

  emit_verdict : Option Message → Tokenizer x → Tokenizer x
  unfolding emit_error
  emit_verdict none t = t
  emit_verdict (some m) t = emit_error x t m

  -- What is left of the name behind the match is unconsumed, and the match is the result.
  accept_match : CharRefTokenizer → Tokenizer x → Text → ℕ × ℕ → Stepped x
  unfolding unconsume
  accept_match r t buf m = do
    left ← slice_from buf r.name_len
    c1 ← expect (from_u32 m.0)
    c2 ← expect (from_u32 m.1)
    let matched : CharRef = record { char0 = c1; char1 = c2; num_chars = if m.1 == 0 then 1 else 2 }
    ok (done, record r { result = some matched }, unconsume x t left)

  settle : Verdict → CharRefTokenizer → Tokenizer x → Text → ℕ × ℕ → Stepped x
  unfolding unconsume_none accept_match emit_verdict
  settle (verdict true e) r t buf m = unconsume_none r (emit_verdict e t)
  settle (verdict false e) r t buf m = accept_match r (emit_verdict e t) buf m

  -- `finish_named` with a match; the assertion is `name_len > 0`.
  finish_matched : CharRefTokenizer → Tokenizer x → Text → ℕ × ℕ → Stepped x
  unfolding decide_match char_after settle
  finish_matched r t buf m =
      if r.name_len == 0
      then panic
      else (char_at buf (r.name_len - 1) >>= λ last. char_after buf r.name_len >>= λ next.
          settle (decide_match r.addnl_allowed last next) r t buf m)

  unfoldable pub finish_named : CharRefTokenizer → Tokenizer x → Option ℕ → Stepped x
  unfolding finish_unmatched finish_matched
  finish_named r t end_char = do
    buf ← expect r.name_buf_opt
    elim r.name_match [
      | none ↦ finish_unmatched r t buf end_char
      | some m ↦ finish_matched r t buf m
    ]

  -- The result of the table lookup, on the name with the character read.
  lookup_on : CharRefTokenizer → Tokenizer x → Text → ℕ → Option (ℕ × ℕ) → Stepped x
  unfolding finish_named
  lookup_on r t buf c none = finish_named r t (some c)
  lookup_on r t buf c (some m) =
      if m.0 == 0
      then ok (progress, r, t)
      else ok (progress, record r { name_match = some m; name_len = byte_len buf }, t)

  named_on : CharRefTokenizer → Option ℕ × Tokenizer x → Stepped x
  unfolding lookup_on
  named_on r (none, t) = ok (stuck, r, t)
  named_on r (some c, t) = do
    old ← expect r.name_buf_opt
    let buf = old ++ c ∷ []
    lookup_on (record r { name_buf_opt = some buf }) t buf c (x.find_entity buf)

  unfoldable pub do_named : CharRefTokenizer → Tokenizer x → Stepped x
  unfolding named_on get_char
  do_named r t = get_char x t >>= named_on r

  bogus_on : CharRefTokenizer → Option ℕ × Tokenizer x → Stepped x
  unfolding unconsume_none emit_name_error
  bogus_on r (none, t) = ok (stuck, r, t)
  bogus_on r (some c, t) = do
    old ← expect r.name_buf_opt
    let buf = old ++ c ∷ []
    let r' = record r { name_buf_opt = some buf }
    if is_ascii_alnum c
        then ok (progress, r', t)
        else if c == b';'
        then unconsume_none r' (emit_name_error buf t)
        else unconsume_none r' t

  unfoldable pub do_bogus_name : CharRefTokenizer → Tokenizer x → Stepped x
  unfolding bogus_on get_char
  do_bogus_name r t = get_char x t >>= bogus_on r
