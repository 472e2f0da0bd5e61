-- ===== src/Tokenizer/Step.antt =====
-- src/tokenizer/mod.rs: `step`, `run`, `feed` and `end`. A loop takes fuel; `none` is that the fuel
-- ran out.
use html.Prelude.{
  ℕ, zero, suc, Bool, true, false, ◌&&◌, Option, none, some, [], ◌∷◌, ◌==◌, if◌then◌else◌, Text,
  codes, text_eq, Checked, ok, panic, ◌>>=◌, expect,
}
use html.Util.SmallCharSet.{small_char_set}
use html.BufferQueue
use html.BufferQueue.{SetResult}
use html.Tokenizer.States.{
  State, rcdata, public, system, data_state, raw_data, attribute_value, bogus_comment,
  comment_start, doctype, after_doctype_name, after_doctype_keyword,
}
use html.Tokenizer.Interface.{Externals}
use html.Tokenizer.Machine.{Tokenizer, CharRef, CharRefTokenizer, get_char, pop_except_from, eat}
use html.Tokenizer.Actions.{
  Go, go, to, clear_comment, error, Flow, again, returns, run_go, have_appropriate_end_tag,
  shorthand, emit, push_value,
}
use html.Tokenizer.CharRef
use html.Tokenizer.CharRef.Numbers.{Status, stuck, progress, done}
use html.Tokenizer.Rules.End.{eof_rule}
use html.Tokenizer.Dispatch.{Reader, by_set, by_char, by_keyword, no_reader, reader, char_rule}

module _ (x : Externals) where
  -- `unwrap_or_return!(..., false)`, and the rule.
  unfoldable pub on_char : State → Option ℕ × Tokenizer x → Checked (Flow × Tokenizer x)
  on_char s (none, t) = ok (returns false, t)
  on_char s (some c, t) = ok (
      run_go x (char_rule s (have_appropriate_end_tag x t) (text_eq t.temp_buf (codes "script")) c)
        t)

  unfoldable pub on_set :
      (SetResult → Go) → Option SetResult × Tokenizer x → Checked (Flow × Tokenizer x)
  on_set rule (none, t) = ok (returns false, t)
  on_set rule (some r, t) = ok (run_go x (rule r) t)

  -- `if eat!(self, pat) { yes } else { no }`
  unfoldable pub eat_then :
      Text
      → Go
      → (Tokenizer x → Checked (Flow × Tokenizer x))
      → Tokenizer x
      → Checked (Flow × Tokenizer x)
  eat_then pat found missing t = do
    (r, t') ← eat x t pat
    elim r [
      | none ↦ ok (returns false, t')
      | some true ↦ ok (run_go x found t')
      | some false ↦ missing t'
    ]

  unfoldable pub round_char : State → Tokenizer x → Checked (Flow × Tokenizer x)
  unfolding on_char
  round_char s t = get_char x t >>= on_char s

  -- The states that look for a keyword.
  unfoldable pub round_keyword : State → Tokenizer x → Checked (Flow × Tokenizer x)
  unfolding eat_then round_char
  round_keyword after_doctype_name t =
      eat_then (codes "public") (go [] (to (after_doctype_keyword public)))
        (eat_then (codes "system") (go [] (to (after_doctype_keyword system)))
          (round_char after_doctype_name))
        t
  round_keyword s t =
      eat_then (codes "--") (go (clear_comment ∷ []) (to comment_start))
        (eat_then (codes "doctype") (go [] (to doctype))
          (λ t'. ok (run_go x (go (error ∷ []) (to bogus_comment)) t')))
        t

  unfoldable pub round_in : Reader → State → Tokenizer x → Checked (Flow × Tokenizer x)
  unfolding on_set round_char round_keyword
  round_in (by_set set rule) s t = pop_except_from x t (small_char_set set) >>= on_set rule
  round_in by_char s t = round_char s t
  round_in by_keyword s t = round_keyword s t
  round_in no_reader s t = panic

  -- One round of the loop of a state.
  unfoldable pub round : State → Tokenizer x → Checked (Flow × Tokenizer x)
  unfolding reader round_in
  round s t = round_in (reader s) s t

  -- `states::X => loop { ... }`
  unfoldable pub state_loop : ℕ → State → Tokenizer x → Checked (Option (Bool × Tokenizer x))
  state_loop zero s t = ok none
  state_loop (suc fuel) s t =
      round s t >>= λ r. elim r.0 [ again ↦ state_loop fuel s r.1 | returns b ↦ ok (some (b, r.1)) ]

  -- One character of `process_char_ref`, by the state.
  unfoldable pub char_ref_cmd : State → ℕ → Tokenizer x → Checked (Tokenizer x)
  char_ref_cmd data_state c t = ok (shorthand x (emit c) t)
  char_ref_cmd (raw_data rcdata) c t = ok (shorthand x (emit c) t)
  char_ref_cmd (attribute_value _) c t = ok (shorthand x (push_value c) t)
  char_ref_cmd _ c t = panic

  -- The loop over the valid slots; the index of the array of two is in range.
  unfoldable pub char_ref_chars : ℕ → CharRef → Tokenizer x → Checked (Tokenizer x)
  unfolding char_ref_cmd
  char_ref_chars zero r t = ok t
  char_ref_chars (suc zero) r t = char_ref_cmd t.state r.char0 t
  char_ref_chars (suc (suc zero)) r t =
      char_ref_cmd t.state r.char0 t >>= λ t'. char_ref_cmd t'.state r.char1 t'
  char_ref_chars _ r t = panic

  unfoldable pub process_char_ref : CharRef → Tokenizer x → Checked (Tokenizer x)
  unfolding char_ref_chars
  process_char_ref r t =
      if r.num_chars == 0
      then char_ref_chars 1 (record r { char0 = b'&'; num_chars = 1 }) t
      else char_ref_chars r.num_chars r t

  after_char_ref : Status × CharRefTokenizer × Tokenizer x → Checked (Bool × Tokenizer x)
  unfolding process_char_ref
  after_char_ref (done, r, t) =
      expect r.result >>= λ c. process_char_ref c t >>= λ t'. ok (true, t')
  after_char_ref (stuck, r, t) = ok (false, record t { char_ref_tokenizer = some r })
  after_char_ref (progress, r, t) = ok (true, record t { char_ref_tokenizer = some r })

  unfoldable pub step_char_ref_tokenizer :
      CharRefTokenizer → Tokenizer x → Checked (Bool × Tokenizer x)
  unfolding after_char_ref
  step_char_ref_tokenizer r t =
      CharRef.step x r (record t { char_ref_tokenizer = none }) >>= after_char_ref

  unfoldable pub step : ℕ → Tokenizer x → Checked (Option (Bool × Tokenizer x))
  unfolding step_char_ref_tokenizer state_loop
  step fuel t = elim t.char_ref_tokenizer [
    | some r ↦ step_char_ref_tokenizer r t >>= λ s. ok (some s)
    | none ↦ state_loop fuel t.state t
  ]

  -- `while self.step() { }`
  unfoldable pub run : ℕ → Tokenizer x → Checked (Option (Tokenizer x))
  unfolding step
  run zero t = ok none
  run (suc fuel) t = step (suc fuel) t >>= λ s. elim s [
    | none ↦ ok none
    | some (true, t') ↦ run fuel t'
    | some (false, t') ↦ ok (some t')
  ]

  -- The position behind a byte order mark.
  unfoldable pub feed_input : Text → Tokenizer x → Tokenizer x
  feed_input [] t = t
  feed_input (c ∷ input) t =
      let bom = t.discard_bom && c == 0xFEFF in
      record t {
        discard_bom = if bom then false else t.discard_bom;
        input_buffers = BufferQueue.push_back t.input_buffers (c ∷ input) (if bom then 3 else 0);
      }

  unfoldable pub feed : ℕ → Text → Tokenizer x → Checked (Option (Tokenizer x))
  unfolding feed_input run
  feed fuel [] t = ok (some t)
  feed fuel (c ∷ input) t = run fuel (feed_input (c ∷ input) t)

  unfoldable pub eof_step : Tokenizer x → Checked (Flow × Tokenizer x)
  unfolding eof_rule
  eof_step t = do rule ← eof_rule t.state; ok (run_go x rule t)

  -- `while self.eof_step() { }`
  unfoldable pub eof_loop : ℕ → Tokenizer x → Checked (Option (Tokenizer x))
  unfolding eof_step
  eof_loop zero t = ok none
  eof_loop (suc fuel) t =
      eof_step t >>= λ s. elim s.0 [ returns false ↦ ok (some s.1) | _ ↦ eof_loop fuel s.1 ]

  -- The first part of `end`: a character reference that is still open.
  close_char_ref : ℕ → Tokenizer x → Checked (Option (Tokenizer x))
  unfolding process_char_ref
  close_char_ref fuel t = elim t.char_ref_tokenizer [
    | none ↦ ok (some t)
    | some r ↦ CharRef.end_of_file x fuel r (record t { char_ref_tokenizer = none }) >>= λ s.
        elim s [
          | none ↦ ok none
          | some (r', t') ↦ expect r'.result >>= λ c. process_char_ref c t' >>= λ t''. ok (some t'')
        ]
  ]

  -- `end`.
  unfoldable pub finish : ℕ → Tokenizer x → Checked (Option (Tokenizer x))
  unfolding close_char_ref run eof_loop
  finish fuel t = close_char_ref fuel t >>= λ s. elim s [
    | none ↦ ok none
    | some t1 ↦ run fuel (record t1 { at_eof = true }) >>= λ s'. elim s' [
      | none ↦ ok none
      | some t2 ↦ eof_loop fuel t2
    ]
  ]
