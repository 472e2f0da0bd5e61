-- ===== src/Tokenizer/Safety/Moves.antt =====
-- A rule that passes the checks leads to a tokenizer that can go on.
use html.Prelude.{
  ℕ, ◌≡◌, ◌≢◌, refl, ap, ◌∙◌, true, ◌⊎◌, inl, inr, none, List, [], ◌∷◌, Text, All, arith,
}
use html.Tokenizer.States.{State, cdata_section}
use html.Tokenizer.Interface.{Externals}
use html.Tokenizer.Machine.{Tokenizer, process_token}
use html.Tokenizer.Actions.{
  Cmd, emit_chars, create_tag, push_tag, push_temp, create_attr, push_name, push_value,
  append_value, push_comment, append_comment, push_doctype_name, push_doctype_id, Exit, stay, to,
  reconsume_in, emit_tag, consume_char_ref, eof, Go, go, Flow, run_exit, run_go, run_cmds,
}
use html.Tokenizer.Safety.Tokens.{HasNoNull, IsNameChar, CmdOk, Accepts, Inv}
use html.Tokenizer.Safety.Commands.{run_cmds-Inv, run_exit-Inv, hand_over_tag-Inv}
use html.Tokenizer.Safety.Checks.{
  name_char, no_null, cmd_ok, cmds_ok, implemented, takes_char_ref, exit_ok, rule_ok,
}
use html.Tokenizer.Safety.Steady.{run_cmds-Kept, emit_current_tag-Asked}

name_char-IsNameChar : (c : ℕ) → name_char c ≡ true → IsNameChar c
name_char-IsNameChar c h = record { not_null = λ e. ground arith; not_capital = ground arith }

no_null-HasNoNull : (s : Text) → no_null s ≡ true → HasNoNull s
no_null-HasNoNull [] h = tt
no_null-HasNoNull (c ∷ s) h = (λ e. ground arith, no_null-HasNoNull s (ground arith))

cmd_ok-CmdOk : (c : Cmd) → cmd_ok c ≡ true → CmdOk c
cmd_ok-CmdOk (emit_chars b) h = no_null-HasNoNull b h
cmd_ok-CmdOk (create_tag _ c) h = name_char-IsNameChar c h
cmd_ok-CmdOk (push_tag c) h = name_char-IsNameChar c h
cmd_ok-CmdOk (push_temp c) h = λ e. ground arith
cmd_ok-CmdOk (create_attr c) h = name_char-IsNameChar c h
cmd_ok-CmdOk (push_name c) h = name_char-IsNameChar c h
cmd_ok-CmdOk (push_value c) h = λ e. ground arith
cmd_ok-CmdOk (append_value b) h = no_null-HasNoNull b h
cmd_ok-CmdOk (push_comment c) h = λ e. ground arith
cmd_ok-CmdOk (append_comment s) h = no_null-HasNoNull s h
cmd_ok-CmdOk (push_doctype_name c) h = name_char-IsNameChar c h
cmd_ok-CmdOk (push_doctype_id _ c) h = λ e. ground arith
cmd_ok-CmdOk _ h = tt

pub cmds_ok-CmdOk : (cs : List Cmd) → cmds_ok cs ≡ true → All CmdOk cs
cmds_ok-CmdOk [] h = tt
cmds_ok-CmdOk (c ∷ cs) h = (cmd_ok-CmdOk c (ground arith), cmds_ok-CmdOk cs (ground arith))

implemented_of : (s : State) → s ≢ cdata_section → implemented s ≡ true
implemented_of cdata_section ne = absurd (ne refl)
implemented_of _ ne = refl

module _ (x : Externals) where
  -- A tokenizer that can go on: its state is implemented, and a character reference is only open in
  -- a state that can take its result.
  pub record Ready (P : x.Sink → Type 0) (t : Tokenizer x) : Type 0 where
    pub inv : Inv x P t
    pub live : implemented t.state ≡ true
    pub fits : (t.char_ref_tokenizer ≡ none) ⊎ (takes_char_ref t.state ≡ true)

  -- What a rule leads to.
  pub record Moved (P : x.Sink → Type 0) (t : Tokenizer x) (out : Flow × Tokenizer x) : Type 0 where
    pub ready : Ready P out.1
    pub input : out.1.input_buffers ≡ t.input_buffers
    pub loops :
        out.0 ≡ Flow.again
        → (out.1.state ≡ t.state)
          × (out.1.reconsume ≡ t.reconsume)
          × (out.1.char_ref_tokenizer ≡ t.char_ref_tokenizer)

  module _ (P : x.Sink → Type 0) (a : Accepts x P) where
    run_exit-Moved :
        (e : Exit) (t : Tokenizer x)
        → exit_ok t.state e ≡ true
        → implemented t.state ≡ true
        → t.char_ref_tokenizer ≡ none
        → Inv x P t
        → Moved P t (run_exit x e t)
    unfolding run_exit
    run_exit-Moved stay t ok live free h = record {
      ready = record { inv = h; live = live; fits = inl free };
      input = refl;
      loops = λ e. (refl, refl, refl);
    }
    run_exit-Moved (to s) t ok live free h = record {
      ready = record { inv = run_exit-Inv x P a (to s) t h; live = ok; fits = inl free };
      input = refl;
      loops = λ e. cc e;
    }
    run_exit-Moved (reconsume_in s) t ok live free h = record {
      ready = record { inv = run_exit-Inv x P a (reconsume_in s) t h; live = ok; fits = inl free };
      input = refl;
      loops = λ e. cc e;
    }
    run_exit-Moved (emit_tag s) t ok live free h =
        let k =
          emit_current_tag-Asked x P a (record t { state = s })
            (hand_over_tag-Inv x P a (record t { state = s }) assumption).sink_ok in
        record {
          ready = record {
            inv = run_exit-Inv x P a (emit_tag s) t h;
            live = elim k.asked_state [
              | inl e ↦ ap implemented e ∙ ok
              | inr (s', e, ne) ↦ ap implemented e ∙ implemented_of s' ne
            ];
            fits = inl (k.asked_ref ∙ free);
          };
          input = k.asked_input;
          loops = λ e. cc e;
        }
    run_exit-Moved (consume_char_ref c) t ok live free h = record {
      ready = record {
        inv = run_exit-Inv x P a (consume_char_ref c) t h;
        live = live;
        fits = inr ok;
      };
      input = refl;
      loops = λ e. cc e;
    }
    run_exit-Moved eof t ok live free h =
        unfold process_token in
        record {
          ready = record { inv = run_exit-Inv x P a eof t h; live = live; fits = inl free };
          input = refl;
          loops = λ e. cc e;
        }

    pub run_go-Moved :
        (g : Go) (t : Tokenizer x)
        → rule_ok t.state g ≡ true
        → implemented t.state ≡ true
        → t.char_ref_tokenizer ≡ none
        → Inv x P t
        → Moved P t (run_go x g t)
    unfolding run_go
    run_go-Moved (go cmds exit) t ok live free h =
        let u : Tokenizer x = run_cmds x cmds t in
        let k = run_cmds-Kept x cmds t in
        let m =
          run_exit-Moved exit u (rw k.state (ground arith)) (ap implemented k.state ∙ live)
            (k.ref ∙ free) (run_cmds-Inv x P a cmds t (cmds_ok-CmdOk cmds (ground arith)) h) in
        record {
          ready = m.ready;
          input = m.input ∙ k.input;
          loops = λ e. (let (s, r, f) = m.loops e in (s ∙ k.state, r ∙ k.again, f ∙ k.ref));
        }
