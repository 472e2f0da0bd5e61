-- ===== src/Tokenizer/Safety/Commands.antt =====
-- Commands and exits keep the invariant.
use mathlib.Core.Path.{subst}
use html.Prelude.{
  ℕ, ◌≡◌, ◌≢◌, refl, sym, ◌∙◌, Bool, true, false, Option, none, some, List, [], ◌∷◌, ◌++◌, Text,
  codes, text_eq, ◌==◌, All, All-append, arith, Bool-cases, inl, inr,
}
use html.Tokenizer.States.{public, system}
use html.Tokenizer.Interface.{
  Externals, Attribute, Message, Token, TagKind, start_tag, end_tag, parse_error, character_tokens,
  null_character_token, static, comment_token, doctype_token,
}
use html.Tokenizer.Machine.{Tokenizer, process_token, emit_error, append_strings, option_push}
use html.Tokenizer.Actions.{
  Cmd, emit, emit_chars, create_tag, push_tag, discard_tag, set_self_closing, push_temp, emit_temp,
  clear_temp, create_attr, push_name, push_value, append_value, push_comment, append_comment,
  emit_comment, clear_comment, create_doctype, push_doctype_name, push_doctype_id, clear_doctype_id,
  force_quirks, emit_doctype, error, error_eof, shorthand, bad_char_error, bad_eof_error, emit_char,
  has_attr, finish_named, finish_attribute, create_attribute, emit_current_tag, hand_over_tag,
  run_cmds, emit_error_if, end_tag_errors, note_tag, ask_sink, Exit, stay, to, reconsume_in,
  emit_tag, consume_char_ref, eof, run_exit, run_go, Go, go,
}
use html.Tokenizer.Safety.Tokens.{
  IsNameChar, IsName, HasNoNull, AttrsOk, no_attrs, more_attrs, OptionAll, IsGood, Accepts, Inv,
  CmdOk, GoOk,
}

append_strings-eq : (s r : Text) → append_strings s r ≡ s ++ r
unfolding append_strings
append_strings-eq [] r = refl
append_strings-eq (c ∷ s) r = refl

text_eq_sym : (s t : Text) → text_eq s t ≡ text_eq t s
text_eq_sym (x ∷ s) (y ∷ t) = ground (arith, text_eq_sym s t)
text_eq_sym [] [] = refl
text_eq_sym [] (y ∷ t) = refl
text_eq_sym (x ∷ s) [] = refl

HasNoNull-snoc : (s : Text) (c : ℕ) → HasNoNull s → c ≢ 0 → HasNoNull (s ++ c ∷ [])
HasNoNull-snoc s c h k = All-append (λ c. c ≢ 0) s (c ∷ []) h (k, tt)

IsName-snoc : (s : Text) (c : ℕ) → IsName s → IsNameChar c → IsName (s ++ c ∷ [])
IsName-snoc s c h k = All-append IsNameChar s (c ∷ []) h (k, tt)

append_strings-HasNoNull : (s r : Text) → HasNoNull s → HasNoNull r → HasNoNull (append_strings s r)
append_strings-HasNoNull s r h k = rw (append_strings-eq s r) (All-append (λ c. c ≢ 0) s r h k)

option_push-HasNoNull :
    (o : Option Text) (c : ℕ)
    → OptionAll HasNoNull o
    → c ≢ 0
    → OptionAll HasNoNull (option_push o c)
unfolding option_push
option_push-HasNoNull none c h k = (k, tt)
option_push-HasNoNull (some s) c h k = HasNoNull-snoc s c h k

option_push-IsName :
    (o : Option Text) (c : ℕ)
    → OptionAll IsName o
    → IsNameChar c
    → OptionAll IsName (option_push o c)
unfolding option_push
option_push-IsName none c h k = (k, tt)
option_push-IsName (some s) c h k = IsName-snoc s c h k

module _ (x : Externals) where
  has_attr-snoc :
      (attrs : List (Attribute x.Atom)) (a : Attribute x.Atom) (name : Text)
      → has_attr x attrs name ≡ false
      → text_eq (x.as_slice a.name.local) name ≡ false
      → has_attr x (attrs ++ a ∷ []) name ≡ false
  unfolding has_attr
  has_attr-snoc [] a name h k = ground arith
  has_attr-snoc (b ∷ attrs) a name h k = ground (arith, has_attr-snoc attrs a name)

  -- A new name at the end keeps the names distinct.
  AttrsOk-snoc :
      {attrs : List (Attribute x.Atom)} (a : Attribute x.Atom)
      → AttrsOk x attrs
      → IsName (x.as_slice a.name.local)
      → HasNoNull a.value
      → has_attr x attrs (x.as_slice a.name.local) ≡ false
      → AttrsOk x (attrs ++ a ∷ [])
  unfolding has_attr
  AttrsOk-snoc a no_attrs n v d = more_attrs a n v refl no_attrs
  AttrsOk-snoc a (more_attrs {attrs} b nb vb db rest) n v d =
      let differs : text_eq (x.as_slice a.name.local) (x.as_slice b.name.local) ≡ false =
        ground (arith, text_eq_sym (x.as_slice a.name.local) (x.as_slice b.name.local)) in
      more_attrs b nb vb (has_attr-snoc attrs a (x.as_slice b.name.local) db differs)
        (AttrsOk-snoc a rest n v (ground arith))

module _ (x : Externals) (P : x.Sink → Type 0) (a : Accepts x P) where
  nil_attrs : AttrsOk x []
  nil_attrs = no_attrs

  nil-IsName : IsName []
  nil-IsName = tt

  pub process_token-Inv :
      (t : Tokenizer x) (token : Token x.Atom)
      → Inv x P t
      → IsGood x token
      → Inv x P (process_token x t token)
  unfolding process_token
  process_token-Inv t token h g = assumption (a.takes t.sink token h.sink_ok g)

  pub emit_error-Inv : (t : Tokenizer x) (m : Message) → Inv x P t → Inv x P (emit_error x t m)
  unfolding emit_error
  emit_error-Inv t m h = process_token-Inv t (parse_error m) h tt

  emit_char-Inv : (t : Tokenizer x) (c : ℕ) → Inv x P t → Inv x P (emit_char x t c)
  unfolding emit_char
  emit_char-Inv t c h = elim (Bool-cases (c == 0)) [
    | inl null ↦ rw null (process_token-Inv t null_character_token h tt)
    | inr other ↦
        rw other (process_token-Inv t (character_tokens (c ∷ [])) h (λ e. ground arith, tt))
  ]

  bad_char_error-Inv : (t : Tokenizer x) → Inv x P t → Inv x P (bad_char_error x t)
  unfolding bad_char_error
  bad_char_error-Inv t h = emit_error-Inv t _ h

  bad_eof_error-Inv : (t : Tokenizer x) → Inv x P t → Inv x P (bad_eof_error x t)
  unfolding bad_eof_error
  bad_eof_error-Inv t h = emit_error-Inv t _ h

  -- The new attribute, if its name is not a duplicate.
  finish_named-Inv :
      (name : Text) (t : Tokenizer x)
      → name ≡ t.current_attr_name
      → Inv x P t
      → Inv x P (finish_named x name t)
  unfolding finish_named
  finish_named-Inv [] t e h = h
  finish_named-Inv (c ∷ cs) t e h =
      let e' : t.current_attr_name ≡ c ∷ cs = sym e in
      elim (Bool-cases (has_attr x t.current_tag_attrs (c ∷ cs))) [
        | inl dup ↦ rw dup (
            assumption (
              a.takes t.sink (parse_error (static (codes "Duplicate attribute"))) h.sink_ok tt,
              nil-IsName,
            ))
        | inr new ↦ rw new (
            assumption (
              nil-IsName,
              AttrsOk-snoc x
                  (record {
                    name = record { ns = x.from_slice []; local = x.from_slice (c ∷ cs) };
                    value = t.current_attr_value;
                  })
                  h.attrs_ok
                  (subst IsName (e' ∙ sym (x.as_slice-from_slice (c ∷ cs))) h.attr_name_ok)
                  h.attr_value_ok (rw (x.as_slice-from_slice (c ∷ cs)) new),
            ))
      ]

  pub finish_attribute-Inv : (t : Tokenizer x) → Inv x P t → Inv x P (finish_attribute x t)
  unfolding finish_attribute
  finish_attribute-Inv t h = finish_named-Inv t.current_attr_name t refl h

  create_attribute-Inv :
      (t : Tokenizer x) (c : ℕ) → IsNameChar c → Inv x P t → Inv x P (create_attribute x t c)
  unfolding create_attribute
  create_attribute-Inv t c k h =
      let t' : Tokenizer x = finish_attribute x t in
      let h' : Inv x P t' = finish_attribute-Inv t h in
      assumption (IsName-snoc t'.current_attr_name c h'.attr_name_ok k)

  pub shorthand-Inv : (c : Cmd) (t : Tokenizer x) → CmdOk c → Inv x P t → Inv x P (shorthand x c t)
  unfolding shorthand
  shorthand-Inv (emit c) t k h = emit_char-Inv t c h
  shorthand-Inv (emit_chars b) t k h = process_token-Inv t _ h k
  shorthand-Inv (create_tag kind c) t k h =
      let one : IsName (c ∷ []) = (k, tt) in assumption (nil_attrs, one)
  shorthand-Inv (push_tag c) t k h = assumption (IsName-snoc t.current_tag_name c h.tag_name_ok k)
  shorthand-Inv discard_tag t k h = assumption nil_attrs
  shorthand-Inv set_self_closing t k h = assumption
  shorthand-Inv (push_temp c) t k h = assumption (HasNoNull-snoc t.temp_buf c h.temp_ok k)
  shorthand-Inv emit_temp t k h =
      assumption (a.takes t.sink (character_tokens t.temp_buf) h.sink_ok h.temp_ok)
  shorthand-Inv clear_temp t k h = assumption
  shorthand-Inv (create_attr c) t k h = create_attribute-Inv t c k h
  shorthand-Inv (push_name c) t k h =
      assumption (IsName-snoc t.current_attr_name c h.attr_name_ok k)
  shorthand-Inv (push_value c) t k h =
      assumption (HasNoNull-snoc t.current_attr_value c h.attr_value_ok k)
  shorthand-Inv (append_value b) t k h =
      assumption (append_strings-HasNoNull t.current_attr_value b h.attr_value_ok k)
  shorthand-Inv (push_comment c) t k h =
      assumption (HasNoNull-snoc t.current_comment c h.comment_ok k)
  shorthand-Inv (append_comment s) t k h =
      assumption (All-append (λ c. c ≢ 0) t.current_comment s h.comment_ok k)
  shorthand-Inv emit_comment t k h =
      assumption (a.takes t.sink (comment_token t.current_comment) h.sink_ok h.comment_ok)
  shorthand-Inv clear_comment t k h = assumption
  shorthand-Inv create_doctype t k h = assumption
  shorthand-Inv (push_doctype_name c) t k h =
      assumption (option_push-IsName t.current_doctype.name c h.doctype_ok.0 k)
  shorthand-Inv (push_doctype_id public c) t k h =
      assumption (option_push-HasNoNull t.current_doctype.public_id c h.doctype_ok.1 k)
  shorthand-Inv (push_doctype_id system c) t k h =
      assumption (option_push-HasNoNull t.current_doctype.system_id c h.doctype_ok.2 k)
  shorthand-Inv (clear_doctype_id public) t k h = assumption
  shorthand-Inv (clear_doctype_id system) t k h = assumption
  shorthand-Inv force_quirks t k h = assumption
  shorthand-Inv emit_doctype t k h =
      assumption (a.takes t.sink (doctype_token t.current_doctype) h.sink_ok h.doctype_ok)
  shorthand-Inv error t k h = bad_char_error-Inv t h
  shorthand-Inv error_eof t k h = bad_eof_error-Inv t h

  pub run_cmds-Inv :
      (cs : List Cmd) (t : Tokenizer x) → All CmdOk cs → Inv x P t → Inv x P (run_cmds x cs t)
  unfolding run_cmds
  run_cmds-Inv [] t k h = h
  run_cmds-Inv (c ∷ cs) t k h = run_cmds-Inv cs _ k.1 (shorthand-Inv c t k.0 h)

  emit_error_if-Inv :
      (b : Bool) (m : Text) (t : Tokenizer x) → Inv x P t → Inv x P (emit_error_if x b m t)
  emit_error_if-Inv true m t h = emit_error-Inv t (static m) h
  emit_error_if-Inv false m t h = h

  end_tag_errors-Inv : (t : Tokenizer x) → Inv x P t → Inv x P (end_tag_errors x t)
  unfolding end_tag_errors
  end_tag_errors-Inv t h =
      emit_error_if-Inv _ (codes "Self-closing end tag") _
        (emit_error_if-Inv _ (codes "Attributes on an end tag") t h)

  note_tag-Inv :
      (k : TagKind) (name : x.Atom) (t : Tokenizer x) → Inv x P t → Inv x P (note_tag x k name t)
  unfolding note_tag
  note_tag-Inv start_tag name t h = assumption
  note_tag-Inv end_tag name t h = end_tag_errors-Inv t h

  ask_sink-Inv : (k : TagKind) (t : Tokenizer x) → Inv x P t → Inv x P (ask_sink x k t)
  unfolding ask_sink
  ask_sink-Inv end_tag t h = h
  ask_sink-Inv start_tag t h = assumption (a.asked t.sink h.sink_ok)

  pub hand_over_tag-Inv : (t : Tokenizer x) → Inv x P t → Inv x P (hand_over_tag x t)
  unfolding hand_over_tag
  hand_over_tag-Inv t h =
      let t1 : Tokenizer x = finish_attribute x t in
      let h1 : Inv x P t1 = finish_attribute-Inv t h in
      let name : x.Atom = x.from_slice t1.current_tag_name in
      let t2 : Tokenizer x =
        note_tag x t1.current_tag_kind name (record t1 { current_tag_name = [] }) in
      let h2 : Inv x P t2 =
        note_tag-Inv t1.current_tag_kind name (record t1 { current_tag_name = [] })
          (assumption nil-IsName) in
      let named : IsName (x.as_slice name) =
        rw (x.as_slice-from_slice t1.current_tag_name) h1.tag_name_ok in
      process_token-Inv (record t2 { current_tag_attrs = [] }) _ (assumption nil_attrs)
        (named, h2.attrs_ok)

  emit_current_tag-Inv : (t : Tokenizer x) → Inv x P t → Inv x P (emit_current_tag x t)
  unfolding emit_current_tag
  emit_current_tag-Inv t h = ask_sink-Inv _ _ (hand_over_tag-Inv t h)

  pub run_exit-Inv : (e : Exit) (t : Tokenizer x) → Inv x P t → Inv x P (run_exit x e t).1
  unfolding run_exit
  run_exit-Inv stay t h = h
  run_exit-Inv (to s) t h = assumption
  run_exit-Inv (reconsume_in s) t h = assumption
  run_exit-Inv (emit_tag s) t h = emit_current_tag-Inv (record t { state = s }) assumption
  run_exit-Inv (consume_char_ref c) t h = assumption
  run_exit-Inv eof t h = process_token-Inv t _ h tt

  -- For a sink that keeps a predicate as long as it is given well-formed tokens, running sound
  -- commands and an exit keeps the invariant of the tokenizer: the input is valid, the tag,
  -- attribute, comment and doctype under construction are well-formed (names without null and
  -- ASCII capitals, no duplicate attribute), and every token handed to the sink is well-formed.
  pub run_go-Inv : (g : Go) (t : Tokenizer x) → GoOk g → Inv x P t → Inv x P (run_go x g t).1
  unfolding run_go
  run_go-Inv (go cmds exit) t k h = run_exit-Inv exit _ (run_cmds-Inv cmds t k h)
