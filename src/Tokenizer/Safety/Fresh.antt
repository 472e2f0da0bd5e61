-- ===== src/Tokenizer/Safety/Fresh.antt =====
-- Reading a character reads from the front buffer only.
use html.Prelude.{
  ℕ, Bool, true, false, ◌&&◌, ◌||◌, Option, none, some, List, [], ◌∷◌, leb, ◌==◌, Checked, ok,
  ◌>>=◌, AllOk, AllOk-bind, AllOk-any, tail, if◌then◌else◌, Bool-cases, inl, inr,
}
use html.Util.Utf8.{byte_len, char_range_at}
use html.BufferQueue.{Buffer, BufferQueue, next_char, next_front, advance}
use html.BufferQueue.Cursor.{IsFresh, IsFresh-tail}
use html.Tokenizer.Interface.{Externals}
use html.Tokenizer.Machine.{
  Tokenizer, emit_error, is_bad_char, next_input, skip_lf, accept_char, report_bad, accept_read,
  get_preprocessed_char, preprocess_read, get_char,
}

-- No buffer but the front one has been read from.
abbrev pub QueueFresh : BufferQueue → Type 0
QueueFresh q = IsFresh (tail q.buffers)

advance-IsFresh : (b : Buffer) (bs : List Buffer) (n : ℕ) → IsFresh bs → QueueFresh (advance b bs n)
unfolding advance
advance-IsFresh b bs n f = elim (Bool-cases (leb (byte_len b.buf) n)) [
  | inl e ↦ rw e (IsFresh-tail bs f)
  | inr e ↦ rw e f
]

next_char-IsFresh : (q : BufferQueue) → QueueFresh q → AllOk (λ r. QueueFresh r.1) (next_char q)
unfolding next_char
next_char-IsFresh q f = by_buffers q.buffers f
  where
    by_buffers :
        (bs : List Buffer) → IsFresh (tail bs) → AllOk (λ r. QueueFresh r.1) (next_front bs)
    by_buffers [] f = unfold next_front in tt
    by_buffers (b ∷ bs) f =
        unfold next_front in
        AllOk-bind (λ r. QueueFresh r.1) (char_range_at b.buf b.pos) _
          (AllOk-any (char_range_at b.buf b.pos)) (λ r u. advance-IsFresh b bs r.1 f)

module _ (x : Externals) where
  abbrev pub InputFresh : Tokenizer x → Type 0
  InputFresh t = QueueFresh t.input_buffers

  abbrev ReadFresh : Checked (Option ℕ × Tokenizer x) → Type 0
  ReadFresh out = AllOk (λ r. InputFresh r.1) out

  next_input-ReadFresh : (t : Tokenizer x) → InputFresh t → ReadFresh (next_input x t)
  unfolding next_input
  next_input-ReadFresh t f =
      AllOk-bind (λ r. InputFresh r.1) (next_char t.input_buffers) _
        (next_char-IsFresh t.input_buffers f) (λ r h. h)

  skip_lf-ReadFresh : (t : Tokenizer x) (c : ℕ) → InputFresh t → ReadFresh (skip_lf x t c)
  unfolding skip_lf
  skip_lf-ReadFresh t c f = choose t.ignore_lf (c == b'\n')
    where
      choose :
          (b b' : Bool)
          → ReadFresh (
              let t' = record t { ignore_lf = false } in
              if b then (if b' then next_input x t' else ok (some c, t')) else ok (some c, t))
      choose true true = next_input-ReadFresh (record t { ignore_lf = false }) f
      choose true false = f
      choose false b' = f

  report_bad-InputFresh :
      (b : Bool) (c : ℕ) (t : Tokenizer x) → InputFresh t → InputFresh (report_bad x b c t)
  unfolding emit_error
  report_bad-InputFresh true c t f = f
  report_bad-InputFresh false c t f = f

  accept_read-ReadFresh :
      (r : Option ℕ × Tokenizer x) → InputFresh r.1 → ReadFresh (accept_read x r)
  unfolding accept_read accept_char
  accept_read-ReadFresh (none, t) f = f
  accept_read-ReadFresh (some c, t) f =
      let t1 : Tokenizer x = record t { ignore_lf = c == b'\r' || t.ignore_lf } in
      let c' : ℕ = if c == b'\r' then b'\n' else c in
      report_bad-InputFresh (t1.opts.exact_errors && is_bad_char x c') c' t1 f

  preprocess_read-ReadFresh :
      (r : Option ℕ × Tokenizer x) → InputFresh r.1 → ReadFresh (preprocess_read x r)
  unfolding preprocess_read get_preprocessed_char
  preprocess_read-ReadFresh (none, t) f = f
  preprocess_read-ReadFresh (some c, t) f =
      AllOk-bind (λ r. InputFresh r.1) (skip_lf x t c) (accept_read x) (skip_lf-ReadFresh t c f)
        accept_read-ReadFresh

  pub get_char-ReadFresh : (t : Tokenizer x) → InputFresh t → ReadFresh (get_char x t)
  unfolding get_char
  get_char-ReadFresh t f = choose t.reconsume
    where
      choose :
          (b : Bool)
          → ReadFresh (
              if b
              then ok (some t.current_char, record t { reconsume = false })
              else (next_input x t >>= preprocess_read x))
      choose true = f
      choose false =
          AllOk-bind (λ r. InputFresh r.1) (next_input x t) (preprocess_read x)
            (next_input-ReadFresh t f) preprocess_read-ReadFresh
