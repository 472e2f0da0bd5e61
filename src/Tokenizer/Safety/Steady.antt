-- ===== src/Tokenizer/Safety/Steady.antt =====
-- The commands of a rule leave the input, the state and the character reference alone.
use html.Prelude.{
  ℕ, ◌≡◌, ◌≢◌, refl, ap, ◌∙◌, Bool, true, false, some, List, [], ◌∷◌, Text, codes, if◌then◌else◌,
  Option-cases, ◌⊎◌, inl, inr,
}
use html.Tokenizer.States.{State, cdata_section}
use html.Tokenizer.Interface.{Externals, TagKind, start_tag, end_tag}
use html.Tokenizer.Machine.{Tokenizer, process_token, emit_error}
use html.Tokenizer.Actions.{
  Cmd, create_attr, shorthand, run_cmds, emit_char, bad_char_error, bad_eof_error, finish_named,
  has_attr, finish_attribute, create_attribute, update_doctype_id, do_discard_tag, has_attrs,
  emit_error_if, end_tag_errors, note_tag, ask_sink, hand_over_tag, emit_current_tag,
}
use html.Tokenizer.Safety.Tokens.{Accepts}

module _ (x : Externals) where
  pub record Kept (t u : Tokenizer x) : Type 0 where
    pub state : u.state ≡ t.state
    pub input : u.input_buffers ≡ t.input_buffers
    pub again : u.reconsume ≡ t.reconsume
    pub ref : u.char_ref_tokenizer ≡ t.char_ref_tokenizer

  Kept-refl : (t : Tokenizer x) → Kept t t
  Kept-refl t = record { state = refl; input = refl; again = refl; ref = refl }

  pub Kept-trans : {t u v : Tokenizer x} → Kept t u → Kept u v → Kept t v
  Kept-trans k l = record {
    state = l.state ∙ k.state;
    input = l.input ∙ k.input;
    again = l.again ∙ k.again;
    ref = l.ref ∙ k.ref;
  }

  Kept-if : (b : Bool) {t u v : Tokenizer x} → Kept t u → Kept t v → Kept t (if b then u else v)
  Kept-if true k l = k
  Kept-if false k l = l

  finish_named-Kept : (name : Text) (t : Tokenizer x) → Kept t (finish_named x name t)
  unfolding finish_named emit_error
  finish_named-Kept [] t = Kept-refl t
  finish_named-Kept (c ∷ cs) t =
      Kept-if (has_attr x t.current_tag_attrs (c ∷ cs))
        (record { state = refl; input = refl; again = refl; ref = refl })
        (record { state = refl; input = refl; again = refl; ref = refl })

  finish_attribute-Kept : (t : Tokenizer x) → Kept t (finish_attribute x t)
  unfolding finish_attribute
  finish_attribute-Kept t = finish_named-Kept t.current_attr_name t

  create_attribute-Kept : (t : Tokenizer x) (c : ℕ) → Kept t (create_attribute x t c)
  unfolding create_attribute
  create_attribute-Kept t c =
      let k = finish_attribute-Kept t in
      record { state = k.state; input = k.input; again = k.again; ref = k.ref }

  pub shorthand-Kept : (c : Cmd) (t : Tokenizer x) → Kept t (shorthand x c t)
  unfolding shorthand emit_char process_token do_discard_tag bad_char_error bad_eof_error emit_error
      update_doctype_id
  shorthand-Kept (create_attr c) t = create_attribute-Kept t c
  shorthand-Kept _ t = record { state = refl; input = refl; again = refl; ref = refl }

  pub run_cmds-Kept : (cs : List Cmd) (t : Tokenizer x) → Kept t (run_cmds x cs t)
  unfolding run_cmds
  run_cmds-Kept [] t = Kept-refl t
  run_cmds-Kept (c ∷ cs) t = Kept-trans (shorthand-Kept c t) (run_cmds-Kept cs _)

  emit_error_if-Kept : (b : Bool) (m : Text) (t : Tokenizer x) → Kept t (emit_error_if x b m t)
  unfolding emit_error
  emit_error_if-Kept true m t = record { state = refl; input = refl; again = refl; ref = refl }
  emit_error_if-Kept false m t = Kept-refl t

  end_tag_errors-Kept : (t : Tokenizer x) → Kept t (end_tag_errors x t)
  unfolding end_tag_errors
  end_tag_errors-Kept t =
      let attrs = codes "Attributes on an end tag" in
      let t' : Tokenizer x = emit_error_if x (has_attrs x t.current_tag_attrs) attrs t in
      Kept-trans (emit_error_if-Kept (has_attrs x t.current_tag_attrs) attrs t)
        (emit_error_if-Kept t'.current_tag_self_closing (codes "Self-closing end tag") t')

  note_tag-Kept : (k : TagKind) (name : x.Atom) (t : Tokenizer x) → Kept t (note_tag x k name t)
  unfolding note_tag
  note_tag-Kept start_tag name t = record { state = refl; input = refl; again = refl; ref = refl }
  note_tag-Kept end_tag name t = end_tag_errors-Kept t

  -- Handing over the tag; the sink may then choose another state.
  pub record Asked (t u : Tokenizer x) : Type 0 where
    pub asked_state : (u.state ≡ t.state) ⊎ ((s : State) × (u.state ≡ s) × (s ≢ cdata_section))
    pub asked_input : u.input_buffers ≡ t.input_buffers
    pub asked_again : u.reconsume ≡ t.reconsume
    pub asked_ref : u.char_ref_tokenizer ≡ t.char_ref_tokenizer

  module _ (P : x.Sink → Type 0) (a : Accepts x P) where
    ask_sink-Asked : (k : TagKind) (t : Tokenizer x) → P t.sink → Asked t (ask_sink x k t)
    unfolding ask_sink
    ask_sink-Asked end_tag t p = record {
      asked_state = inl refl;
      asked_input = refl;
      asked_again = refl;
      asked_ref = refl;
    }
    ask_sink-Asked start_tag t p = record {
      asked_state = elim (Option-cases (x.query_state_change t.sink).0) [
        | inl e ↦ inl (rw e)
        | inr (s, e) ↦ inr (s, rw e refl, λ c. a.answers t.sink p (e ∙ ap some c))
      ];
      asked_input = refl;
      asked_again = refl;
      asked_ref = refl;
    }

    hand_over_tag-Kept : (t : Tokenizer x) → Kept t (hand_over_tag x t)
    unfolding hand_over_tag process_token
    hand_over_tag-Kept t =
        let t1 : Tokenizer x = finish_attribute x t in
        let k = Kept-trans (finish_attribute-Kept t) (
          Kept-trans (record { state = refl; input = refl; again = refl; ref = refl })
            (note_tag-Kept t1.current_tag_kind (x.from_slice t1.current_tag_name)
              (record t1 { current_tag_name = [] }))) in
        record { state = k.state; input = k.input; again = k.again; ref = k.ref }

    pub emit_current_tag-Asked :
        (t : Tokenizer x) → P (hand_over_tag x t).sink → Asked t (emit_current_tag x t)
    unfolding emit_current_tag
    emit_current_tag-Asked t p =
        let t' : Tokenizer x = hand_over_tag x t in
        let k = hand_over_tag-Kept t in
        let h = ask_sink-Asked t'.current_tag_kind t' p in
        record {
          asked_state = elim h.asked_state [ inl e ↦ inl (e ∙ k.state) | inr d ↦ inr d ];
          asked_input = h.asked_input ∙ k.input;
          asked_again = h.asked_again ∙ k.again;
          asked_ref = h.asked_ref ∙ k.ref;
        }
