-- ===== src/Tokenizer/Safety/Tokens.antt =====
-- Well-formed tokens, and the invariant of the tokenizer's buffers.
use html.Prelude.{ℕ, ◌≡◌, ◌≢◌, false, Option, none, some, List, [], ◌∷◌, Text, All, within}
use html.BufferQueue.View.{IsValid}
use html.Tokenizer.States.{cdata_section}
use html.Tokenizer.Interface.{
  Externals, Attribute, Doctype, Token, doctype_token, tag_token, comment_token, character_tokens,
  null_character_token, eof_token, parse_error,
}
use html.Tokenizer.Machine.{Tokenizer}
use html.Tokenizer.Actions.{
  Cmd, emit_chars, create_tag, push_tag, push_temp, create_attr, push_name, push_value,
  append_value, push_comment, append_comment, push_doctype_name, push_doctype_id, Go, go, has_attr,
}

-- Neither U+0000 nor an ASCII capital.
pub record IsNameChar (c : ℕ) : Type 0 where
  pub not_null : c ≢ 0
  pub not_capital : within b'A' b'Z' c ≡ false

abbrev pub IsName : Text → Type 0
IsName s = All IsNameChar s

abbrev pub HasNoNull : Text → Type 0
HasNoNull s = All (λ c. c ≢ 0) s

abbrev pub OptionAll : (Text → Type 0) → Option Text → Type 0
OptionAll P none = Unit
OptionAll P (some s) = P s

module _ (x : Externals) where
  -- Lowercase names without U+0000, no two the same; values without U+0000.
  pub data AttrsOk : List (Attribute x.Atom) → Type 0 where
    no_attrs : AttrsOk []
    more_attrs :
        {attrs : List (Attribute x.Atom)} (a : Attribute x.Atom)
        → IsName (x.as_slice a.name.local)
        → HasNoNull a.value
        → has_attr x attrs (x.as_slice a.name.local) ≡ false
        → AttrsOk attrs
        → AttrsOk (a ∷ attrs)

  abbrev pub DoctypeOk : Doctype → Type 0
  DoctypeOk d =
      OptionAll IsName d.name × OptionAll HasNoNull d.public_id × OptionAll HasNoNull d.system_id

  -- The tokens that a sink may be given.
  abbrev pub IsGood : Token x.Atom → Type 0
  IsGood (doctype_token d) = DoctypeOk d
  IsGood (tag_token tag) = IsName (x.as_slice tag.name) × AttrsOk tag.attrs
  IsGood (comment_token s) = HasNoNull s
  IsGood (character_tokens s) = HasNoNull s
  IsGood null_character_token = Unit
  IsGood eof_token = Unit
  IsGood (parse_error m) = Unit

  -- A sink keeps `P` as long as it is given such tokens, and never asks for the state that is not
  -- implemented.
  pub record Accepts (P : x.Sink → Type 0) : Type 0 where
    pub takes :
        (s : x.Sink) (token : Token x.Atom) → P s → IsGood token → P (x.process_token s token)
    pub asked : (s : x.Sink) → P s → P (x.query_state_change s).1
    pub answers : (s : x.Sink) → P s → (x.query_state_change s).0 ≢ some cdata_section

  -- The invariant: the input is valid, and what is collected will make good tokens.
  pub record Inv (P : x.Sink → Type 0) (t : Tokenizer x) : Type 0 where
    pub sink_ok : P t.sink
    pub input_ok : IsValid t.input_buffers
    pub tag_name_ok : IsName t.current_tag_name
    pub attrs_ok : AttrsOk t.current_tag_attrs
    pub attr_name_ok : IsName t.current_attr_name
    pub attr_value_ok : HasNoNull t.current_attr_value
    pub comment_ok : HasNoNull t.current_comment
    pub doctype_ok : DoctypeOk t.current_doctype
    pub temp_ok : HasNoNull t.temp_buf

-- What a command of a rule must satisfy.
abbrev pub CmdOk : Cmd → Type 0
CmdOk (emit_chars b) = HasNoNull b
CmdOk (create_tag _ c) = IsNameChar c
CmdOk (push_tag c) = IsNameChar c
CmdOk (push_temp c) = c ≢ 0
CmdOk (create_attr c) = IsNameChar c
CmdOk (push_name c) = IsNameChar c
CmdOk (push_value c) = c ≢ 0
CmdOk (append_value b) = HasNoNull b
CmdOk (push_comment c) = c ≢ 0
CmdOk (append_comment s) = HasNoNull s
CmdOk (push_doctype_name c) = IsNameChar c
CmdOk (push_doctype_id _ c) = c ≢ 0
CmdOk _ = Unit

abbrev pub GoOk : Go → Type 0
GoOk (go cmds exit) = All CmdOk cmds
