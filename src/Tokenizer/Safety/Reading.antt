-- ===== src/Tokenizer/Safety/Reading.antt =====
-- Reading a character never panics on a valid queue, keeps the invariant, and uses input up.
use html.Prelude.{
  ℕ, ◌+◌, ◌≤◌, ◌≡◌, refl, ap, ◌∙◌, Bool, true, false, ◌&&◌, ◌||◌, Option, none, some, [], ◌∷◌, Text,
  length, head?, tail, Checked, ok, ◌>>=◌, ◌==◌, if◌then◌else◌, arith,
}
use html.BufferQueue.View.{chars, Holds}
use html.BufferQueue.Laws.{next_char-Holds}
use html.Tokenizer.Interface.{Externals, bad_character}
use html.Tokenizer.Machine.{
  Tokenizer, emit_error, is_bad_char, next_input, skip_lf, accept_char, report_bad, accept_read,
  get_preprocessed_char, preprocess_read, get_char,
}
use html.Tokenizer.Safety.Tokens.{Accepts, Inv}
use html.Tokenizer.Safety.Commands.{emit_error-Inv}

-- The characters that a read returns.
abbrev pub spent : Option ℕ → ℕ
spent none = 0
spent (some c) = 1

module _ (x : Externals) where
  -- The characters that are still to be read, the one to be read again included.
  abbrev pub pending : Tokenizer x → ℕ
  pending t = length (chars t.input_buffers) + (if t.reconsume then 1 else 0)

  module _ (P : x.Sink → Type 0) where
    -- A read of `r` that led from `t` to `t'`.
    pub record ReadsTo (t : Tokenizer x) (cost : ℕ) (t' : Tokenizer x) : Type 0 where
      pub inv : Inv x P t'
      pub same_state : t'.state ≡ t.state
      pub same_ref : t'.char_ref_tokenizer ≡ t.char_ref_tokenizer
      pub spends : cost + pending t' ≤ pending t

    -- The read returns, without a panic.
    pub record Got (t : Tokenizer x) (out : Checked (Option ℕ × Tokenizer x)) : Type 0 where
      pub result : Option ℕ
      pub after : Tokenizer x
      pub returns : out ≡ ok (result, after)
      pub reads : ReadsTo t (spent result) after

module _ (x : Externals) (P : x.Sink → Type 0) (a : Accepts x P) where
  length-tail : (s : Text) → spent (head? s) + length (tail s) ≡ length s
  length-tail [] = refl
  length-tail (c ∷ s) = omega arith

  next_input-Got : (t : Tokenizer x) → Inv x P t → Got x P t (next_input x t)
  unfolding next_input
  next_input-Got t h =
      let start : Holds t.input_buffers (chars t.input_buffers) = record {
        valid = h.input_ok;
        holds = refl;
      } in
      let (q, e, k) = next_char-Holds start in
      record {
        result = head? (chars t.input_buffers);
        after = record t { input_buffers = q };
        returns = rw e;
        reads = record {
          inv = assumption k.valid;
          same_state = refl;
          same_ref = refl;
          spends = omega (arith, length-tail (chars t.input_buffers), ap length k.holds);
        };
      }

  ReadsTo-trans :
      {t u v : Tokenizer x} {m n : ℕ} (k : ℕ)
      → ReadsTo x P t m u
      → ReadsTo x P u n v
      → k ≤ m + n
      → ReadsTo x P t k v
  ReadsTo-trans k r s le = record {
    inv = s.inv;
    same_state = s.same_state ∙ r.same_state;
    same_ref = s.same_ref ∙ r.same_ref;
    spends = omega (arith, r.spends, s.spends);
  }

  report_bad-ReadsTo :
      (b : Bool) (c : ℕ) (t : Tokenizer x) → Inv x P t → ReadsTo x P t 0 (report_bad x b c t)
  unfolding emit_error
  report_bad-ReadsTo true c t h = record {
    inv = emit_error-Inv x P a t (bad_character c) h;
    same_state = refl;
    same_ref = refl;
    spends = omega arith;
  }
  report_bad-ReadsTo false c t h = record {
    inv = h;
    same_state = refl;
    same_ref = refl;
    spends = omega arith;
  }

  Inv-current_char : (t : Tokenizer x) (c : ℕ) → Inv x P t → Inv x P (record t { current_char = c })
  Inv-current_char t c h = assumption

  Inv-ignore_lf : (t : Tokenizer x) (b : Bool) → Inv x P t → Inv x P (record t { ignore_lf = b })
  Inv-ignore_lf t b h = assumption

  -- The part behind the read only reports errors.
  accept_char-ReadsTo :
      (t : Tokenizer x) (c : ℕ) → Inv x P t → ReadsTo x P t 0 (accept_char x t c).1
  unfolding accept_char
  accept_char-ReadsTo t c h =
      let t1 : Tokenizer x = record t { ignore_lf = c == b'\r' || t.ignore_lf } in
      let c' : ℕ = if c == b'\r' then b'\n' else c in
      let r = report_bad-ReadsTo (t1.opts.exact_errors && is_bad_char x c') c' t1 assumption in
      record {
        inv = Inv-current_char _ c' r.inv;
        same_state = r.same_state;
        same_ref = r.same_ref;
        spends = r.spends;
      }

  accept_read-Got :
      (t : Tokenizer x) (o : Option ℕ) (u : Tokenizer x)
      → ReadsTo x P t (spent o) u
      → Got x P t (accept_read x (o, u))
  unfolding accept_read
  accept_read-Got t none u r = record { result = none; after = u; returns = refl; reads = r }
  accept_read-Got t (some c) u r = record {
    result = some (accept_char x u c).0;
    after = (accept_char x u c).1;
    returns = refl;
    reads = ReadsTo-trans 1 r (accept_char-ReadsTo u c r.inv) (omega arith);
  }

  -- A line feed behind a carriage return is read and dropped.
  skip_lf-Got : (t u : Tokenizer x) (c : ℕ) → ReadsTo x P t 1 u → Got x P t (skip_lf x u c)
  unfolding skip_lf
  skip_lf-Got t u c r =
      let u' : Tokenizer x = record u { ignore_lf = false } in
      let r' : ReadsTo x P t 1 u' = record {
        inv = Inv-ignore_lf u false r.inv;
        same_state = r.same_state;
        same_ref = r.same_ref;
        spends = r.spends;
      } in
      let g = next_input-Got u' r'.inv in
      skip-by u.ignore_lf (c == b'\n')
        (record {
          result = g.result;
          after = g.after;
          returns = g.returns;
          reads = ReadsTo-trans (spent g.result) r' g.reads (omega arith);
        })
        (record { result = some c; after = u'; returns = refl; reads = r' })
        (record { result = some c; after = u; returns = refl; reads = r })
    where
      skip-by :
          (b b' : Bool) {m n l : Checked (Option ℕ × Tokenizer x)}
          → Got x P t m
          → Got x P t n
          → Got x P t l
          → Got x P t (if b then (if b' then m else n) else l)
      skip-by true true m n l = m
      skip-by true false m n l = n
      skip-by false b' m n l = l

  -- A read, and what a function makes of its result.
  Got-bind :
      {t : Tokenizer x} {out : Checked (Option ℕ × Tokenizer x)}
      (f : Option ℕ × Tokenizer x → Checked (Option ℕ × Tokenizer x))
      → Got x P t out
      → ((o : Option ℕ) (u : Tokenizer x) → ReadsTo x P t (spent o) u → Got x P t (f (o, u)))
      → Got x P t (out >>= f)
  Got-bind f g k = rw g.returns (k g.result g.after g.reads)

  pub get_preprocessed_char-Got :
      (t u : Tokenizer x) (c : ℕ) → ReadsTo x P t 1 u → Got x P t (get_preprocessed_char x u c)
  unfolding get_preprocessed_char
  get_preprocessed_char-Got t u c r =
      Got-bind (accept_read x) (skip_lf-Got t u c r) (accept_read-Got t)

  preprocess_read-Got :
      (t : Tokenizer x) (o : Option ℕ) (u : Tokenizer x)
      → ReadsTo x P t (spent o) u
      → Got x P t (preprocess_read x (o, u))
  unfolding preprocess_read
  preprocess_read-Got t none u r = record { result = none; after = u; returns = refl; reads = r }
  preprocess_read-Got t (some c) u r = get_preprocessed_char-Got t u c r

  reread-Got :
      (t : Tokenizer x)
      → t.reconsume ≡ true
      → Inv x P t
      → Got x P t (ok (some t.current_char, record t { reconsume = false }))
  reread-Got t e h = record {
    result = some t.current_char;
    after = record t { reconsume = false };
    returns = refl;
    reads = record { inv = assumption; same_state = refl; same_ref = refl; spends = ground arith };
  }

  -- For a sink that keeps a predicate as long as it is given well-formed tokens: in a tokenizer
  -- that satisfies the invariant get_char returns without a panic, keeps the invariant, the state
  -- and the character reference, and leaves fewer pending characters if it returns one, and never
  -- more.
  pub get_char-Got : (t : Tokenizer x) → Inv x P t → Got x P t (get_char x t)
  unfolding get_char
  get_char-Got t h = choose t.reconsume refl
    where
      choose :
          (b : Bool)
          → t.reconsume ≡ b
          → Got x P t (
              if b
              then ok (some t.current_char, record t { reconsume = false })
              else (next_input x t >>= preprocess_read x))
      choose true e = reread-Got t e h
      choose false e = Got-bind (preprocess_read x) (next_input-Got t h) (preprocess_read-Got t)
