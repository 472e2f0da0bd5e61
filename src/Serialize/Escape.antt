-- ===== src/Serialize/Escape.antt =====
-- src/serialize/mod.rs, `write_escaped`: reading the references of what it writes gives the text.
use html.Prelude.{
  ℕ, zero, suc, ◌≡◌, ◌≢◌, refl, ap, Bool, true, false, not, ◌&&◌, Option, none, some, List, [], ◌∷◌,
  ◌++◌, ◌==◌, if◌then◌else◌, Text, codes, All, All-append, arith,
}
use html.Names.{Atoms}
use html.Serialize.{Output, SerializeOpts, ElemInfo, put_str, put_char, put_escaped, write_escaped}
use html.Serialize.Writes.{
  IsWriter, Steps, >>-Steps, done-Steps, put_str-Steps, put_char-Steps, if-Steps,
}

-- The text that stands for a character.
pub escape_char : Bool → ℕ → Text
escape_char attr_mode c =
    if c == b'&'
    then codes "&amp;"
    else if c == 0xA0
    then codes "&nbsp;"
    else if c == b'"' && attr_mode
    then codes "&quot;"
    else if c == b'<' && not attr_mode
    then codes "&lt;"
    else if c == b'>' && not attr_mode
    then codes "&gt;"
    else (c ∷ [])

unfoldable pub escaped : Bool → Text → Text
unfolding escape_char
escaped attr_mode [] = []
escaped attr_mode (c ∷ text) = escape_char attr_mode c ++ escaped attr_mode text

abbrev starts_with : Text → Text → Bool
starts_with text [] = true
starts_with [] (p ∷ pat) = false
starts_with (c ∷ text) (p ∷ pat) = c == p && starts_with text pat

-- The character reference at the start of a text, and how many characters follow its first.
reference : Text → Option (ℕ × ℕ)
reference text =
    if starts_with text (codes "&amp;")
    then some (b'&', 4)
    else if starts_with text (codes "&nbsp;")
    then some (0xA0, 5)
    else if starts_with text (codes "&quot;")
    then some (b'"', 5)
    else if starts_with text (codes "&lt;")
    then some (b'<', 3)
    else if starts_with text (codes "&gt;")
    then some (b'>', 3)
    else none

-- A text with its references replaced, behind the first `skip` characters.
unfoldable decode_behind : ℕ → Text → Text
unfolding reference
decode_behind skip [] = []
decode_behind (suc skip) (c ∷ text) = decode_behind skip text
decode_behind zero (c ∷ text) = elim (reference (c ∷ text)) [
  | none ↦ c ∷ decode_behind zero text
  | some (d, more) ↦ d ∷ decode_behind more text
]

pub decode : Text → Text
unfolding decode_behind
decode = decode_behind 0

decode-escape_char :
    (attr_mode : Bool) (c : ℕ) (text : Text)
    → decode (escape_char attr_mode c ++ text) ≡ c ∷ decode text
unfolding decode escape_char decode_behind reference
decode-escape_char attr_mode c text = ground arith

-- The characters that would end a text, or the value of an attribute.
pub IsInert : Bool → ℕ → Type 0
IsInert true c = c ≢ b'"'
IsInert false c = (c ≢ b'<') × (c ≢ b'>')

pub decode-escaped : (attr_mode : Bool) (text : Text) → decode (escaped attr_mode text) ≡ text
unfolding escaped decode
decode-escaped attr_mode [] = refl
decode-escaped attr_mode (c ∷ text) =
    rw (decode-escape_char attr_mode c (escaped attr_mode text))
      (ap (λ t. c ∷ t) (decode-escaped attr_mode text))

escape_char-IsInert : (attr_mode : Bool) (c : ℕ) → All (IsInert attr_mode) (escape_char attr_mode c)
unfolding escape_char IsInert
escape_char-IsInert true c = ground arith
escape_char-IsInert false c = ground arith

pub escaped-IsInert :
    (attr_mode : Bool) (text : Text) → All (IsInert attr_mode) (escaped attr_mode text)
unfolding escaped
escaped-IsInert attr_mode [] = tt
escaped-IsInert attr_mode (c ∷ text) =
    All-append (IsInert attr_mode) (escape_char attr_mode c) (escaped attr_mode text)
      (escape_char-IsInert attr_mode c) (escaped-IsInert attr_mode text)

module _ {o : Output} {a : Atoms} {Has : o.Writer → Text → Type 0}
    {Failed : o.Writer → o.IoError → Type 0} (writer : IsWriter o Has Failed) where
  put_escaped-Steps :
      {opts : SerializeOpts} {stack : List (ElemInfo a.Atom)} (attr_mode : Bool) (c : ℕ)
      → Steps o a Has Failed opts stack stack
          (escape_char attr_mode c)
          (put_escaped o a attr_mode c)
  unfolding escape_char put_escaped put_str put_char
  put_escaped-Steps attr_mode c = if-Steps (c == b'&') (put_str-Steps writer (codes "&amp;")) (
      if-Steps (c == 0xA0) (put_str-Steps writer (codes "&nbsp;")) (
        if-Steps (c == b'"' && attr_mode) (put_str-Steps writer (codes "&quot;")) (
          if-Steps (c == b'<' && not attr_mode) (put_str-Steps writer (codes "&lt;")) (
            if-Steps (c == b'>' && not attr_mode) (put_str-Steps writer (codes "&gt;"))
              (put_char-Steps writer c)))))

  pub write_escaped-Steps :
      {opts : SerializeOpts} {stack : List (ElemInfo a.Atom)} (text : Text) (attr_mode : Bool)
      → Steps o a Has Failed opts stack stack
          (escaped attr_mode text)
          (write_escaped o a text attr_mode)
  unfolding escaped write_escaped
  write_escaped-Steps [] attr_mode = done-Steps
  write_escaped-Steps (c ∷ text) attr_mode =
      >>-Steps (put_escaped-Steps attr_mode c) (write_escaped-Steps text attr_mode)

  -- For a writer that either puts a text behind what it has or fails: what write_escaped writes,
  -- in either mode, gives the text back when its character references are replaced, and has no
  -- quotation mark in the mode for attributes and no angle bracket in the other.
  pub write_escaped-Decoded :
      (opts : SerializeOpts) (stack : List (ElemInfo a.Atom)) (text : Text) (attr_mode : Bool)
      → (out : Text) × Steps o a Has Failed opts stack stack out (write_escaped o a text attr_mode)
        × (decode out ≡ text)
        × All (IsInert attr_mode) out
  write_escaped-Decoded opts stack text attr_mode = (
    escaped attr_mode text,
    write_escaped-Steps text attr_mode,
    decode-escaped attr_mode text,
    escaped-IsInert attr_mode text,
  )
