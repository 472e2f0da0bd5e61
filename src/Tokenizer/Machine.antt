-- ===== src/Tokenizer/Machine.antt =====
-- src/tokenizer/mod.rs: the tokenizer's state and its primitive operations. The timing that
-- `opts.profile` asks for is left out.
use html.Prelude.{
  ℕ, Bool, true, false, ◌&&◌, ◌||◌, Option, none, some, List, [], ◌∷◌, ◌++◌, ◌==◌, within,
  if◌then◌else◌, Text, Checked, ok, panic, ◌>>=◌,
}
use Prim.Native.Nat.{bit_and}
use html.Util.SmallCharSet.{SmallCharSet}
use html.BufferQueue
use html.BufferQueue.{BufferQueue, SetResult, from_set, not_from_set}
use html.Tokenizer.States.{State}
use html.Tokenizer.Interface.{
  Externals, Doctype, new_doctype, Attribute, TagKind, start_tag, Message, bad_character, Token,
  parse_error,
}

-- `option_push`.
unfoldable pub option_push : Option Text → ℕ → Option Text
option_push none c = some (c ∷ [])
option_push (some s) c = some (s ++ c ∷ [])

-- `append_strings`.
unfoldable pub append_strings : Text → Text → Text
append_strings [] rhs = rhs
append_strings (c ∷ lhs) rhs = (c ∷ lhs) ++ rhs

pub record TokenizerOpts : Type 0 where
  pub exact_errors : Bool
  pub discard_bom : Bool
  pub profile : Bool
  pub initial_state : Option State
  pub last_start_tag_name : Option Text

-- The states of the character reference tokenizer (src/tokenizer/char_ref/mod.rs).
pub data RefState : Type 0 where
  begin octothorpe : RefState
  numeric : ℕ → RefState
  numeric_semicolon named bogus_name : RefState

-- `CharRef`: two slots, and how many of them are valid.
pub record CharRef : Type 0 where
  pub char0 : ℕ
  pub char1 : ℕ
  pub num_chars : ℕ

pub record CharRefTokenizer : Type 0 where
  pub state : RefState
  pub addnl_allowed : Option ℕ
  pub result : Option CharRef
  pub num : ℕ
  pub num_too_big : Bool
  pub seen_digit : Bool
  pub hex_marker : Option ℕ
  pub name_buf_opt : Option Text
  pub name_match : Option (ℕ × ℕ)
  pub name_len : ℕ

-- `CharRefTokenizer::new`.
unfoldable pub new_char_ref : Option ℕ → CharRefTokenizer
new_char_ref addnl_allowed = record {
  state = begin;
  addnl_allowed = addnl_allowed;
  result = none;
  num = 0;
  num_too_big = false;
  seen_digit = false;
  hex_marker = none;
  name_buf_opt = none;
  name_match = none;
  name_len = 0;
}

pub record Tokenizer (x : Externals) : Type 0 where
  pub opts : TokenizerOpts
  pub sink : x.Sink
  pub state : State
  pub input_buffers : BufferQueue
  pub at_eof : Bool
  pub char_ref_tokenizer : Option CharRefTokenizer
  pub current_char : ℕ
  pub reconsume : Bool
  pub ignore_lf : Bool
  pub discard_bom : Bool
  pub current_tag_kind : TagKind
  pub current_tag_name : Text
  pub current_tag_self_closing : Bool
  pub current_tag_attrs : List (Attribute x.Atom)
  pub current_attr_name : Text
  pub current_attr_value : Text
  pub current_comment : Text
  pub current_doctype : Doctype
  pub last_start_tag_name : Option x.Atom
  pub temp_buf : Text

module _ (x : Externals) where
  open x use {Atom, Sink, from_slice, as_slice}

  -- `Tokenizer::new`.
  unfoldable pub new : Sink → TokenizerOpts → Tokenizer x
  new sink opts = record {
    opts = record opts { last_start_tag_name = none };
    sink = sink;
    state = elim opts.initial_state [ none ↦ State.data_state | some s ↦ s ];
    input_buffers = BufferQueue.new;
    at_eof = false;
    char_ref_tokenizer = none;
    current_char = 0;
    reconsume = false;
    ignore_lf = false;
    discard_bom = opts.discard_bom;
    current_tag_kind = start_tag;
    current_tag_name = [];
    current_tag_self_closing = false;
    current_tag_attrs = [];
    current_attr_name = [];
    current_attr_value = [];
    current_comment = [];
    current_doctype = new_doctype;
    last_start_tag_name = elim opts.last_start_tag_name [
      | none ↦ none
      | some s ↦ some (from_slice s)
    ];
    temp_buf = [];
  }

  unfoldable pub process_token : Tokenizer x → Token Atom → Tokenizer x
  process_token t token = record t { sink = x.process_token t.sink token }

  unfoldable pub emit_error : Tokenizer x → Message → Tokenizer x
  unfolding process_token
  emit_error t error = process_token t (parse_error error)

  -- The characters that are an error under `exact_errors`.
  unfoldable pub is_bad_char : ℕ → Bool
  is_bad_char n =
      within 0x01 0x08 n
      || n == 0x0B
      || within 0x0E 0x1F n
      || within 0x7F 0x9F n
      || within 0xFDD0 0xFDEF n
      || bit_and n 0xFFFE == 0xFFFE

  -- `self.input_buffers.next()`.
  unfoldable pub next_input : Tokenizer x → Checked (Option ℕ × Tokenizer x)
  next_input t = do
    (c, q) ← BufferQueue.next_char t.input_buffers
    ok (c, record t { input_buffers = q })

  -- The first test of `get_preprocessed_char`: a line feed behind a carriage return is skipped.
  unfoldable pub skip_lf : Tokenizer x → ℕ → Checked (Option ℕ × Tokenizer x)
  unfolding next_input
  skip_lf t c =
      let t' = record t { ignore_lf = false } in
      if t.ignore_lf
      then (if c == b'\n' then next_input t' else ok (some c, t'))
      else ok (some c, t)

  abbrev pub report_bad : Bool → ℕ → Tokenizer x → Tokenizer x
  report_bad true c t = emit_error t (bad_character c)
  report_bad false c t = t

  -- The rest of `get_preprocessed_char`.
  unfoldable pub accept_char : Tokenizer x → ℕ → ℕ × Tokenizer x
  unfolding is_bad_char emit_error
  accept_char t c0 =
      let c = if c0 == b'\r' then b'\n' else c0 in
      let t1 = record t { ignore_lf = c0 == b'\r' || t.ignore_lf } in
      let t2 = report_bad (t1.opts.exact_errors && is_bad_char c) c t1 in
      (c, record t2 { current_char = c })

  unfoldable pub accept_read : Option ℕ × Tokenizer x → Checked (Option ℕ × Tokenizer x)
  unfolding accept_char
  accept_read (none, t) = ok (none, t)
  accept_read (some c, t) = let (c', t') = accept_char t c in ok (some c', t')

  unfoldable pub get_preprocessed_char : Tokenizer x → ℕ → Checked (Option ℕ × Tokenizer x)
  unfolding skip_lf accept_read
  get_preprocessed_char t c = skip_lf t c >>= accept_read

  unfoldable pub preprocess_read : Option ℕ × Tokenizer x → Checked (Option ℕ × Tokenizer x)
  unfolding get_preprocessed_char
  preprocess_read (none, t) = ok (none, t)
  preprocess_read (some c, t) = get_preprocessed_char t c

  unfoldable pub get_char : Tokenizer x → Checked (Option ℕ × Tokenizer x)
  unfolding next_input preprocess_read
  get_char t =
      if t.reconsume
      then ok (some t.current_char, record t { reconsume = false })
      else (next_input t >>= preprocess_read)

  unfoldable pub as_from_set : Option ℕ × Tokenizer x → Checked (Option SetResult × Tokenizer x)
  as_from_set (none, t) = ok (none, t)
  as_from_set (some c, t) = ok (some (from_set c), t)

  unfoldable pub preprocess_popped :
      Tokenizer x → Option SetResult → Checked (Option SetResult × Tokenizer x)
  unfolding get_preprocessed_char as_from_set
  preprocess_popped t (some (from_set c)) = get_preprocessed_char t c >>= as_from_set
  preprocess_popped t d = ok (d, t)

  unfoldable pub pop_except_from :
      Tokenizer x → SmallCharSet → Checked (Option SetResult × Tokenizer x)
  unfolding get_char as_from_set preprocess_popped
  pop_except_from t set =
      if t.opts.exact_errors || t.reconsume || t.ignore_lf
      then (get_char t >>= as_from_set)
      else (BufferQueue.pop_except_from t.input_buffers set >>= λ r.
          preprocess_popped (record t { input_buffers = r.1 }) r.0)

  pub at_end : Bool → Option Bool → Option Bool
  at_end true none = some false
  at_end _ r = r

  unfoldable pub eat : Tokenizer x → Text → Checked (Option Bool × Tokenizer x)
  unfolding at_end
  eat t pat = do
    (r, q) ← BufferQueue.eat t.input_buffers pat
    ok (at_end t.at_eof r, record t { input_buffers = q })

  unfoldable pub peek : Tokenizer x → Checked (Option ℕ)
  peek t = if t.reconsume then ok (some t.current_char) else BufferQueue.peek t.input_buffers

  unfoldable pub assert_some : Option ℕ × Tokenizer x → Checked (Tokenizer x)
  assert_some (none, t) = panic
  assert_some (some c, t) = ok t

  unfoldable pub discard_char : Tokenizer x → Checked (Tokenizer x)
  unfolding get_char assert_some
  discard_char t = get_char t >>= assert_some

  unfoldable pub unconsume : Tokenizer x → Text → Tokenizer x
  unconsume t buf = record t { input_buffers = BufferQueue.push_front t.input_buffers buf }
