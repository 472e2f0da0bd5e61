-- ===== src/Tokenizer/Safety/References.antt =====
-- `process_char_ref`: the characters of a reference go where the state wants them.
use html.Prelude.{
  ℕ, zero, suc, ◌≤◌, ◌≡◌, ◌≢◌, refl, ◌∙◌, ap, true, Checked, ok, ◌>>=◌, ◌==◌, arith, Bool-cases,
  inl, inr,
}
use html.Tokenizer.States.{
  State, data_state, raw_data, rcdata, rawtext, script_data, script_data_escaped, attribute_value,
}
use html.Tokenizer.Interface.{Externals}
use html.Tokenizer.Machine.{Tokenizer, CharRef}
use html.Tokenizer.Actions.{emit, push_value, shorthand}
use html.Tokenizer.Step.{char_ref_cmd, char_ref_chars, process_char_ref}
use html.Tokenizer.Safety.Tokens.{Accepts, Inv}
use html.Tokenizer.Safety.Commands.{shorthand-Inv}
use html.Tokenizer.Safety.Checks.{takes_char_ref}
use html.Tokenizer.Safety.Steady.{Kept, Kept-trans, shorthand-Kept}

-- At most two characters, none of them U+0000.
pub record CharRefOk (r : CharRef) : Type 0 where
  pub few : r.num_chars ≤ 2
  pub first : 1 ≤ r.num_chars → r.char0 ≢ 0
  pub second : 2 ≤ r.num_chars → r.char1 ≢ 0

-- The call returned; only what is collected has changed.
pub record Processed (x : Externals) (P : x.Sink → Type 0) (t : Tokenizer x)
    (out : Checked (Tokenizer x)) : Type 0 where
  pub after : Tokenizer x
  pub returns : out ≡ ok after
  pub inv : Inv x P after
  pub kept : Kept x t after

module _ (x : Externals) (P : x.Sink → Type 0) (a : Accepts x P) where
  char_ref_cmd-Processed :
      (s : State) (c : ℕ) (t : Tokenizer x)
      → takes_char_ref s ≡ true
      → c ≢ 0
      → Inv x P t
      → Processed x P t (char_ref_cmd x s c t)
  unfolding char_ref_cmd
  char_ref_cmd-Processed data_state c t e n h = record {
    after = shorthand x (emit c) t;
    returns = refl;
    inv = shorthand-Inv x P a (emit c) t tt h;
    kept = shorthand-Kept x (emit c) t;
  }
  char_ref_cmd-Processed (raw_data rcdata) c t e n h = record {
    after = shorthand x (emit c) t;
    returns = refl;
    inv = shorthand-Inv x P a (emit c) t tt h;
    kept = shorthand-Kept x (emit c) t;
  }
  char_ref_cmd-Processed (attribute_value _) c t e n h = record {
    after = shorthand x (push_value c) t;
    returns = refl;
    inv = shorthand-Inv x P a (push_value c) t n h;
    kept = shorthand-Kept x (push_value c) t;
  }
  char_ref_cmd-Processed (raw_data rawtext) c t e n h = cc
  char_ref_cmd-Processed (raw_data script_data) c t e n h = cc
  char_ref_cmd-Processed (raw_data (script_data_escaped _)) c t e n h = cc
  char_ref_cmd-Processed _ c t e n h = cc

  Processed-bind :
      {t : Tokenizer x} {out : Checked (Tokenizer x)} (f : Tokenizer x → Checked (Tokenizer x))
      → Processed x P t out
      → ((u : Tokenizer x) → Inv x P u → Kept x t u → Processed x P u (f u))
      → Processed x P t (out >>= f)
  Processed-bind f p k =
      let q = k p.after p.inv p.kept in
      rw p.returns (record {
        after = q.after;
        returns = q.returns;
        inv = q.inv;
        kept = Kept-trans x p.kept q.kept;
      })

  char_ref_chars-Processed :
      (n : ℕ) (r : CharRef) (t : Tokenizer x)
      → 1 ≤ n
      → n ≤ 2
      → r.char0 ≢ 0
      → (2 ≤ n → r.char1 ≢ 0)
      → takes_char_ref t.state ≡ true
      → Inv x P t
      → Processed x P t (char_ref_chars x n r t)
  unfolding char_ref_chars
  char_ref_chars-Processed zero r t lo hi c0 c1 e h = absurd (omega arith)
  char_ref_chars-Processed (suc zero) r t lo hi c0 c1 e h =
      char_ref_cmd-Processed t.state r.char0 t e c0 h
  char_ref_chars-Processed (suc (suc zero)) r t lo hi c0 c1 e h =
      Processed-bind (λ t'. char_ref_cmd x t'.state r.char1 t')
        (char_ref_cmd-Processed t.state r.char0 t e c0 h)
        (λ u hu k.
          char_ref_cmd-Processed u.state r.char1 u (ap takes_char_ref k.state ∙ e)
            (c1 (omega arith)) hu)
  char_ref_chars-Processed (suc (suc (suc n))) r t lo hi c0 c1 e h = absurd (omega arith)

  -- For a sink that keeps a predicate as long as it is given well-formed tokens: in a tokenizer
  -- that satisfies the invariant and whose state can take a character reference, and for a result
  -- of at most two characters none of which is U+0000, process_char_ref returns without a panic,
  -- keeps the invariant, and leaves the input, the state and the reconsume flag alone.
  pub process_char_ref-Processed :
      (r : CharRef) (t : Tokenizer x)
      → CharRefOk r
      → takes_char_ref t.state ≡ true
      → Inv x P t
      → Processed x P t (process_char_ref x r t)
  unfolding process_char_ref
  process_char_ref-Processed r t good e h = elim (Bool-cases (r.num_chars == 0)) [
    | inl nothing ↦ rw nothing (
        char_ref_chars-Processed 1 (record r { char0 = b'&'; num_chars = 1 }) t (omega arith)
          (omega arith) (λ z. omega (arith, z)) (λ le. absurd (omega (arith, le))) e h)
    | inr something ↦ rw something (
        char_ref_chars-Processed r.num_chars r t (ground arith) good.few (good.first (ground arith))
          good.second e h)
  ]
