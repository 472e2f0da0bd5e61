-- ===== src/Tokenizer/Safety/Checks.antt =====
-- The side conditions of the rules as tests: sound commands, and exits to implemented states.
use html.Prelude.{ℕ, ◌≡◌, refl, Bool, true, false, not, ◌&&◌, List, [], ◌∷◌, Text, ◌==◌, within}
use html.Tokenizer.States.{State, rcdata, data_state, raw_data, attribute_value, cdata_section}
use html.Tokenizer.Actions.{
  Cmd, emit, emit_chars, create_tag, push_tag, push_temp, create_attr, push_name, push_value,
  append_value, push_comment, append_comment, push_doctype_name, push_doctype_id, Exit, to,
  reconsume_in, emit_tag, consume_char_ref, Go, go,
}

abbrev pub name_char : ℕ → Bool
name_char c = not (c == 0) && not (within b'A' b'Z' c)

abbrev pub no_null : Text → Bool
no_null [] = true
no_null (c ∷ s) = not (c == 0) && no_null s

-- The side conditions of the commands, as tests.
abbrev pub cmd_ok : Cmd → Bool
cmd_ok (emit_chars b) = no_null b
cmd_ok (create_tag _ c) = name_char c
cmd_ok (push_tag c) = name_char c
cmd_ok (push_temp c) = not (c == 0)
cmd_ok (create_attr c) = name_char c
cmd_ok (push_name c) = name_char c
cmd_ok (push_value c) = not (c == 0)
cmd_ok (append_value b) = no_null b
cmd_ok (push_comment c) = not (c == 0)
cmd_ok (append_comment s) = no_null s
cmd_ok (push_doctype_name c) = name_char c
cmd_ok (push_doctype_id _ c) = not (c == 0)
cmd_ok _ = true

abbrev pub implemented : State → Bool
implemented cdata_section = false
implemented _ = true

-- The states in which a character reference may stand.
abbrev pub takes_char_ref : State → Bool
takes_char_ref data_state = true
takes_char_ref (raw_data rcdata) = true
takes_char_ref (attribute_value _) = true
takes_char_ref _ = false

abbrev pub exit_ok : State → Exit → Bool
exit_ok s (to s') = implemented s'
exit_ok s (reconsume_in s') = implemented s'
exit_ok s (emit_tag s') = implemented s'
exit_ok s (consume_char_ref _) = takes_char_ref s
exit_ok s _ = true

abbrev pub cmds_ok : List Cmd → Bool
cmds_ok [] = true
cmds_ok (c ∷ cs) = cmd_ok c && cmds_ok cs

abbrev pub rule_ok : State → Go → Bool
rule_ok s (go cmds exit) = cmds_ok cmds && exit_ok s exit

-- No command emits U+0000.
abbrev pub emits_no_null : List Cmd → Bool
emits_no_null [] = true
emits_no_null (emit c ∷ cs) = not (c == 0) && emits_no_null cs
emits_no_null (_ ∷ cs) = emits_no_null cs

-- The check of the states that read single characters. The data state, which reads runs, emits
-- U+0000.
abbrev pub char_rule_ok : State → Go → Bool
char_rule_ok s (go cmds exit) = rule_ok s (go cmds exit) && emits_no_null cmds

pub char_rule_ok-rule_ok : (s : State) (g : Go) → char_rule_ok s g ≡ true → rule_ok s g ≡ true
char_rule_ok-rule_ok s (go cmds exit) h = and-left (rule_ok s (go cmds exit)) _ h
  where
    and-left : (b c : Bool) → (b && c) ≡ true → b ≡ true
    and-left true c h = refl
    and-left false c h = h
