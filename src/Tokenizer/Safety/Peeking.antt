-- ===== src/Tokenizer/Safety/Peeking.antt =====
-- `discard_char` behind `peek`.
use html.Prelude.{
  ok-injective, ℕ, ◌≡◌, ◌≢◌, refl, sym, ap, ◌∙◌, Bool, true, false, Option, none, some, Checked, ok,
  ◌>>=◌, ◌==◌, arith, head?, if◌then◌else◌,
}
use html.BufferQueue
use html.BufferQueue.View.{chars, Holds}
use html.BufferQueue.Laws.{peek-Holds, next_char-Holds}
use html.Tokenizer.Interface.{Externals}
use html.Tokenizer.Machine
use html.Tokenizer.Machine.{
  Tokenizer, next_input, skip_lf, accept_char, accept_read, get_preprocessed_char, preprocess_read,
  get_char, discard_char, assert_some,
}
use html.Tokenizer.Safety.Tokens.{Accepts, Inv}
use html.Tokenizer.Safety.Reading.{spent, ReadsTo, get_char-Got}

-- The call returned, and a character has been used up.
pub record Discarded (x : Externals) (P : x.Sink → Type 0) (t : Tokenizer x)
    (out : Checked (Tokenizer x)) : Type 0 where
  pub after : Tokenizer x
  pub returns : out ≡ ok after
  pub reads : ReadsTo x P t 1 after

module _ (x : Externals) where
  -- A read that has a character.
  abbrev Reads : Checked (Option ℕ × Tokenizer x) → Type 0
  Reads out = (c : ℕ) × (u : Tokenizer x) × (out ≡ ok (some c, u))

  preprocess_read-Reads :
      (t : Tokenizer x) (c : ℕ) → c ≢ b'\n' → Reads (preprocess_read x (some c, t))
  unfolding preprocess_read get_preprocessed_char skip_lf accept_read
  preprocess_read-Reads t c ne = choose t.ignore_lf (c == b'\n') (λ e. ground arith)
    where
      choose :
          (b b' : Bool)
          → b' ≢ true
          → Reads (
              (let t' = record t { ignore_lf = false } in
                if b then (if b' then next_input x t' else ok (some c, t')) else ok (some c, t))
              >>= accept_read x)
      choose true true f = absurd (f refl)
      choose true false f = (_, _, refl)
      choose false b' f = (_, _, refl)

module _ (x : Externals) (P : x.Sink → Type 0) (a : Accepts x P) where
  get_char-Reads :
      (t : Tokenizer x) (c : ℕ)
      → Machine.peek x t ≡ ok (some c)
      → c ≢ b'\n'
      → Inv x P t
      → Reads x (get_char x t)
  unfolding get_char Machine.peek
  get_char-Reads t c p ne h = choose t.reconsume p
    where
      choose :
          (b : Bool)
          → (if b then ok (some t.current_char) else BufferQueue.peek t.input_buffers) ≡ ok (some c)
          → Reads x (
              if b
              then ok (some t.current_char, record t { reconsume = false })
              else (next_input x t >>= preprocess_read x))
      choose true e = (_, _, refl)
      choose false e =
          let start : Holds t.input_buffers (chars t.input_buffers) = record {
            valid = h.input_ok;
            holds = refl;
          } in
          let (q, n, k) = next_char-Holds start in
          let first : head? (chars t.input_buffers) ≡ some c =
            ok-injective (sym (peek-Holds start) ∙ e) in
          let n' : next_input x t ≡ ok (some c, record t { input_buffers = q }) =
            unfold next_input in rw n (rw first refl) in
          rw n' (preprocess_read-Reads x (record t { input_buffers = q }) c ne)

  assert_some-Discarded :
      (t : Tokenizer x) (o : Option ℕ) (v : Tokenizer x) (d : ℕ) (u : Tokenizer x)
      {out : Checked (Option ℕ × Tokenizer x)}
      → out ≡ ok (o, v)
      → out ≡ ok (some d, u)
      → ReadsTo x P t (spent o) v
      → Discarded x P t (out >>= assert_some x)
  unfolding assert_some
  assert_some-Discarded t none v d u e e' r = cc (ap is_read e, ap is_read e')
    where
      is_read : Checked (Option ℕ × Tokenizer x) → Bool
      is_read (ok (some c, w)) = true
      is_read _ = false
  assert_some-Discarded t (some c) v d u e e' r =
      rw e (record { after = v; returns = refl; reads = r })

  -- For a sink that keeps a predicate as long as it is given well-formed tokens: in a tokenizer
  -- that satisfies the invariant, if peek shows a character other than a line feed, the assertion
  -- of discard_char holds. The call returns, keeps the invariant, the state and the character
  -- reference, and uses up at least one pending character.
  pub discard_char-Discarded :
      (t : Tokenizer x) (c : ℕ)
      → Machine.peek x t ≡ ok (some c)
      → c ≢ b'\n'
      → Inv x P t
      → Discarded x P t (discard_char x t)
  unfolding discard_char
  discard_char-Discarded t c p ne h =
      let (d, u, e) = get_char-Reads t c p ne h in
      let g = get_char-Got x P a t h in
      assert_some-Discarded t g.result g.after d u g.returns e g.reads
