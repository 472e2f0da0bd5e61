-- ===== src/Tokenizer/Actions.antt =====
-- src/tokenizer/mod.rs: the actions on the token under construction, and the macros `shorthand!`
-- and `go!` that sequence them.
use html.Prelude.{
  ℕ, Bool, true, false, ◌||◌, Option, none, some, List, [], ◌∷◌, ◌++◌, ◌==◌, if◌then◌else◌, Text,
  codes, text_eq,
}
use html.Tokenizer.States.{State, DoctypeIdKind, public, system}
use html.Tokenizer.Interface.{
  Externals, Doctype, new_doctype, Attribute, TagKind, start_tag, end_tag, static, saw_in_state,
  saw_eof_in_state, doctype_token, tag_token, comment_token, character_tokens, null_character_token,
  eof_token,
}
use html.Tokenizer.Machine.{
  Tokenizer, new_char_ref, option_push, append_strings, process_token, emit_error,
}

abbrev pub replacement : ℕ
replacement = 0xFFFD

-- The shorthands, by the names that they have in the rules. `emit_chars` and `set_self_closing` are
-- the two plain statements that stand between shorthands in `step`.
pub data Cmd : Type 0 where
  emit : ℕ → Cmd
  emit_chars : Text → Cmd
  create_tag : TagKind → ℕ → Cmd
  push_tag : ℕ → Cmd
  discard_tag set_self_closing : Cmd
  push_temp : ℕ → Cmd
  emit_temp clear_temp : Cmd
  create_attr push_name push_value : ℕ → Cmd
  append_value : Text → Cmd
  push_comment : ℕ → Cmd
  append_comment : Text → Cmd
  emit_comment clear_comment create_doctype : Cmd
  push_doctype_name : ℕ → Cmd
  push_doctype_id : DoctypeIdKind → ℕ → Cmd
  clear_doctype_id : DoctypeIdKind → Cmd
  force_quirks emit_doctype error error_eof : Cmd

-- How a rule ends: it falls through to the next round of its loop, or leaves `step`.
pub data Exit : Type 0 where
  stay : Exit
  to reconsume_in emit_tag : State → Exit
  consume_char_ref : Option ℕ → Exit
  eof : Exit

pub data Go : Type 0 where
  go : List Cmd → Exit → Go

-- What a round of `step` asks for: another round, or to return a value.
pub data Flow : Type 0 where
  again : Flow
  returns : Bool → Flow

module _ (x : Externals) where
  open x use {Atom, Sink, from_slice, as_slice}

  unfoldable pub bad_char_error : Tokenizer x → Tokenizer x
  unfolding emit_error
  bad_char_error t = emit_error x t (
      if t.opts.exact_errors
      then saw_in_state t.current_char t.state
      else static (codes "Bad character"))

  unfoldable pub bad_eof_error : Tokenizer x → Tokenizer x
  unfolding emit_error
  bad_eof_error t =
      emit_error x t
        (if t.opts.exact_errors then saw_eof_in_state t.state else static (codes "Unexpected EOF"))

  unfoldable pub emit_char : Tokenizer x → ℕ → Tokenizer x
  unfolding process_token
  emit_char t c =
      process_token x t (if c == 0 then null_character_token else character_tokens (c ∷ []))

  -- Is there an attribute of this name already?
  unfoldable pub has_attr : List (Attribute Atom) → Text → Bool
  has_attr [] name = false
  has_attr (a ∷ attrs) name = text_eq (as_slice a.name.local) name || has_attr attrs name

  -- `finish_attribute`, on the name of the current attribute.
  unfoldable pub finish_named : Text → Tokenizer x → Tokenizer x
  unfolding has_attr emit_error
  finish_named [] t = t
  finish_named name t =
      if has_attr t.current_tag_attrs name
      then record (emit_error x t (static (codes "Duplicate attribute"))) {
        current_attr_name = [];
        current_attr_value = [];
      }
      else record t {
        current_attr_name = [];
        current_attr_value = [];
        current_tag_attrs =
            t.current_tag_attrs
            ++ (record {
              name = record { ns = from_slice []; local = from_slice name };
              value = t.current_attr_value;
            }
                ∷ []);
      }

  unfoldable pub finish_attribute : Tokenizer x → Tokenizer x
  unfolding finish_named
  finish_attribute t = finish_named t.current_attr_name t

  unfoldable pub create_attribute : Tokenizer x → ℕ → Tokenizer x
  unfolding finish_attribute
  create_attribute t c =
      let t' = finish_attribute t in
      record t' { current_attr_name = t'.current_attr_name ++ c ∷ [] }

  abbrev pub emit_error_if : Bool → Text → Tokenizer x → Tokenizer x
  emit_error_if true message t = emit_error x t (static message)
  emit_error_if false message t = t

  -- `!self.current_tag_attrs.is_empty()`
  abbrev pub has_attrs : List (Attribute Atom) → Bool
  has_attrs [] = false
  has_attrs (a ∷ attrs) = true

  -- The errors of an end tag.
  unfoldable pub end_tag_errors : Tokenizer x → Tokenizer x
  unfolding emit_error
  end_tag_errors t =
      let t' = emit_error_if (has_attrs t.current_tag_attrs) (codes "Attributes on an end tag") t in
      emit_error_if t'.current_tag_self_closing (codes "Self-closing end tag") t'

  unfoldable pub note_tag : TagKind → Atom → Tokenizer x → Tokenizer x
  unfolding end_tag_errors
  note_tag start_tag name t = record t { last_start_tag_name = some name }
  note_tag end_tag name t = end_tag_errors t

  -- The sink may choose the state behind a start tag.
  unfoldable pub ask_sink : TagKind → Tokenizer x → Tokenizer x
  ask_sink end_tag t = t
  ask_sink start_tag t =
      let (answer, sink) = x.query_state_change t.sink in
      record t { sink = sink; state = elim answer [ none ↦ t.state | some s ↦ s ] }

  -- `emit_current_tag` up to the question to the sink.
  unfoldable pub hand_over_tag : Tokenizer x → Tokenizer x
  unfolding finish_attribute note_tag process_token
  hand_over_tag t =
      let t1 = finish_attribute t in
      let name = from_slice t1.current_tag_name in
      let t2 = note_tag t1.current_tag_kind name (record t1 { current_tag_name = [] }) in
      process_token x (record t2 { current_tag_attrs = [] })
        (tag_token (record {
          kind = t2.current_tag_kind;
          name = name;
          self_closing = t2.current_tag_self_closing;
          attrs = t2.current_tag_attrs;
        }))

  unfoldable pub emit_current_tag : Tokenizer x → Tokenizer x
  unfolding hand_over_tag ask_sink
  emit_current_tag t = let t' = hand_over_tag t in ask_sink t'.current_tag_kind t'

  unfoldable pub do_discard_tag : Tokenizer x → Tokenizer x
  do_discard_tag t = record t {
    current_tag_name = [];
    current_tag_self_closing = false;
    current_tag_attrs = [];
  }

  unfoldable pub have_appropriate_end_tag : Tokenizer x → Bool
  have_appropriate_end_tag t = elim t.last_start_tag_name [
    | none ↦ false
    | some last ↦ elim t.current_tag_kind [
      | start_tag ↦ false
      | end_tag ↦ text_eq t.current_tag_name (as_slice last)
    ]
  ]

  -- `doctype_id(kind)`, read and written.
  abbrev pub doctype_id : DoctypeIdKind → Doctype → Option Text
  doctype_id public d = d.public_id
  doctype_id system d = d.system_id

  abbrev pub set_doctype_id : DoctypeIdKind → Option Text → Doctype → Doctype
  set_doctype_id public id d = record d { public_id = id }
  set_doctype_id system id d = record d { system_id = id }

  unfoldable pub update_doctype_id :
      DoctypeIdKind → (Option Text → Option Text) → Tokenizer x → Tokenizer x
  update_doctype_id k f t =
      let d = t.current_doctype in
      record t { current_doctype = set_doctype_id k (f (doctype_id k d)) d }

  -- The macro `shorthand!`.
  unfoldable pub shorthand : Cmd → Tokenizer x → Tokenizer x
  unfolding emit_char process_token do_discard_tag create_attribute append_strings option_push
      update_doctype_id bad_char_error bad_eof_error
  shorthand (emit c) t = emit_char t c
  shorthand (emit_chars b) t = process_token x t (character_tokens b)
  shorthand (create_tag kind c) t = record (do_discard_tag t) {
    current_tag_name = c ∷ [];
    current_tag_kind = kind;
  }
  shorthand (push_tag c) t = record t { current_tag_name = t.current_tag_name ++ c ∷ [] }
  shorthand discard_tag t = do_discard_tag t
  shorthand set_self_closing t = record t { current_tag_self_closing = true }
  shorthand (push_temp c) t = record t { temp_buf = t.temp_buf ++ c ∷ [] }
  shorthand emit_temp t = process_token x (record t { temp_buf = [] }) (character_tokens t.temp_buf)
  shorthand clear_temp t = record t { temp_buf = [] }
  shorthand (create_attr c) t = create_attribute t c
  shorthand (push_name c) t = record t { current_attr_name = t.current_attr_name ++ c ∷ [] }
  shorthand (push_value c) t = record t { current_attr_value = t.current_attr_value ++ c ∷ [] }
  shorthand (append_value b) t = record t {
    current_attr_value = append_strings t.current_attr_value b;
  }
  shorthand (push_comment c) t = record t { current_comment = t.current_comment ++ c ∷ [] }
  shorthand (append_comment s) t = record t { current_comment = t.current_comment ++ s }
  shorthand emit_comment t =
      process_token x (record t { current_comment = [] }) (comment_token t.current_comment)
  shorthand clear_comment t = record t { current_comment = [] }
  shorthand create_doctype t = record t { current_doctype = new_doctype }
  shorthand (push_doctype_name c) t =
      let d = t.current_doctype in
      record t { current_doctype = record d { name = option_push d.name c } }
  shorthand (push_doctype_id k c) t = update_doctype_id k (λ id. option_push id c) t
  shorthand (clear_doctype_id k) t = update_doctype_id k (λ id. some []) t
  shorthand force_quirks t = record t {
    current_doctype = record (t.current_doctype) { force_quirks = true };
  }
  shorthand emit_doctype t =
      process_token x (record t { current_doctype = new_doctype }) (doctype_token t.current_doctype)
  shorthand error t = bad_char_error t
  shorthand error_eof t = bad_eof_error t

  unfoldable pub run_cmds : List Cmd → Tokenizer x → Tokenizer x
  unfolding shorthand
  run_cmds [] t = t
  run_cmds (c ∷ cs) t = run_cmds cs (shorthand c t)

  -- The endings of the macro `go!`.
  unfoldable pub run_exit : Exit → Tokenizer x → Flow × Tokenizer x
  unfolding emit_current_tag process_token new_char_ref
  run_exit stay t = (again, t)
  run_exit (to s) t = (returns true, record t { state = s })
  run_exit (reconsume_in s) t = (returns true, record t { reconsume = true; state = s })
  run_exit (emit_tag s) t = (returns true, emit_current_tag (record t { state = s }))
  run_exit (consume_char_ref addnl) t =
      (returns true, record t { char_ref_tokenizer = some (new_char_ref addnl) })
  run_exit eof t = (returns false, process_token x t eof_token)

  unfoldable pub run_go : Go → Tokenizer x → Flow × Tokenizer x
  unfolding run_cmds run_exit
  run_go (go cmds exit) t = run_exit exit (run_cmds cmds t)
