-- ===== src/Serialize.antt =====
-- src/serialize/mod.rs: the serializer of HTML fragments. The writer is a parameter; the stack of
-- elements has its last element first.
pub mod Writes
pub mod Escape
pub mod Markup
pub mod Tags
use html.Prelude.{
  ℕ, Bool, true, false, not, ◌&&◌, Option, none, some, List, [], ◌∷◌, ◌==◌, if◌then◌else◌, Text,
  codes, contains_text, Checked, ok, panic, ◌>>=◌, head?, expect,
}
use html.Tokenizer.Interface.{QualName, Attribute}
use html.Names.{Atoms, is_html, no_namespace, local_in}

-- `IoResult<()>`.
pub data IoResult (IoError : Type 0) : Type 0 where
  okay : IoResult IoError
  err : IoError → IoResult IoError

-- The `Writer` of the standard library.
pub record Output : Type 1 where
  pub Writer : Type 0
  pub IoError : Type 0
  pub write_str : Writer → Text → IoResult IoError × Writer
  pub write_char : Writer → ℕ → IoResult IoError × Writer

pub record SerializeOpts : Type 0 where
  pub scripting_enabled : Bool

-- `Default for SerializeOpts`.
abbrev pub default_opts : SerializeOpts
default_opts = record { scripting_enabled = true }

pub record ElemInfo (Atom : Type 0) : Type 0 where
  pub html_name : Option Atom
  pub ignore_children : Bool
  pub processed_first_child : Bool

pub record Serializer (o : Output) (a : Atoms) : Type 0 where
  pub writer : o.Writer
  pub opts : SerializeOpts
  pub stack : List (ElemInfo a.Atom)

abbrev pub void_elements : List Text
void_elements =
    codes "area"
    ∷ codes "base"
    ∷ codes "basefont"
    ∷ codes "bgsound"
    ∷ codes "br"
    ∷ codes "col"
    ∷ codes "embed"
    ∷ codes "frame"
    ∷ codes "hr"
    ∷ codes "img"
    ∷ codes "input"
    ∷ codes "keygen"
    ∷ codes "link"
    ∷ codes "menuitem"
    ∷ codes "meta"
    ∷ codes "param"
    ∷ codes "source"
    ∷ codes "track"
    ∷ codes "wbr"
    ∷ []

abbrev pub lf_elements : List Text
lf_elements = codes "pre" ∷ codes "textarea" ∷ codes "listing" ∷ []

abbrev pub raw_elements : List Text
raw_elements =
    codes "style"
    ∷ codes "script"
    ∷ codes "xmp"
    ∷ codes "iframe"
    ∷ codes "noembed"
    ∷ codes "noframes"
    ∷ codes "plaintext"
    ∷ []

-- A method that writes: it may fail with an error of the writer, or panic.
abbrev pub Method : Output → Atoms → Type 0
Method o a = Serializer o a → Checked (IoResult o.IoError × Serializer o a)

-- `Ok(())`.
abbrev pub done : {o : Output} {a : Atoms} → Method o a
done s = ok (okay, s)

-- `try!(first); next`, by what the first method returns.
abbrev pub and_then :
    {o : Output} {a : Atoms}
    → Method o a
    → IoResult o.IoError × Serializer o a
    → Checked (IoResult o.IoError × Serializer o a)
and_then next (okay, s) = next s
and_then next (err e, s) = ok (err e, s)

infixr 4 ◌>>◌
abbrev pub ◌>>◌ : {o : Output} {a : Atoms} → Method o a → Method o a → Method o a
(first >> next) s = first s >>= and_then next

abbrev pub written :
    {o : Output} {a : Atoms}
    → Serializer o a
    → IoResult o.IoError × o.Writer
    → IoResult o.IoError × Serializer o a
written s (r, writer) = (r, record s { writer = writer })

module _ (a : Atoms) where
  open a use {Atom, as_slice}

  -- A match of `html_name` against atoms.
  unfoldable pub named_in : Option Atom → List Text → Bool
  named_in none tags = false
  named_in (some local) tags = contains_text tags (as_slice local)

  unfoldable pub starts_with_lf : Text → Bool
  starts_with_lf [] = false
  starts_with_lf (c ∷ text) = c == b'\n'

  unfoldable pub prepend_lf : ElemInfo Atom → Text → Bool
  unfolding named_in starts_with_lf
  prepend_lf info text =
      starts_with_lf text && (not info.processed_first_child && named_in info.html_name lf_elements)

  unfoldable pub escapes : SerializeOpts → ElemInfo Atom → Bool
  unfolding named_in
  escapes opts info =
      if named_in info.html_name raw_elements
      then false
      else if named_in info.html_name (codes "noscript" ∷ [])
      then not opts.scripting_enabled
      else true

module _ (o : Output) (a : Atoms) where
  open o use {Writer, IoError}
  open a use {Atom, as_slice}

  unfoldable pub new : Writer → SerializeOpts → Serializer o a
  new writer opts = record {
    writer = writer;
    opts = opts;
    stack =
        record { html_name = none; ignore_children = false; processed_first_child = false } ∷ [];
  }

  unfoldable pub put_str : Text → Method o a
  put_str text s = ok (written s (o.write_str s.writer text))

  unfoldable pub put_char : ℕ → Method o a
  put_char c s = ok (written s (o.write_char s.writer c))

  unfoldable pub parent : Serializer o a → Checked (ElemInfo Atom)
  parent s = expect (head? s.stack)

  -- The match of `write_escaped` on a character.
  unfoldable pub put_escaped : Bool → ℕ → Method o a
  unfolding put_str put_char
  put_escaped attr_mode c =
      if c == b'&'
      then put_str (codes "&amp;")
      else if c == 0xA0
      then put_str (codes "&nbsp;")
      else if c == b'"' && attr_mode
      then put_str (codes "&quot;")
      else if c == b'<' && not attr_mode
      then put_str (codes "&lt;")
      else if c == b'>' && not attr_mode
      then put_str (codes "&gt;")
      else put_char c

  unfoldable pub write_escaped : Text → Bool → Method o a
  unfolding put_escaped
  write_escaped [] attr_mode = done
  write_escaped (c ∷ text) attr_mode = put_escaped attr_mode c >> write_escaped text attr_mode

  unfoldable pub assert_no_namespace : QualName Atom → Method o a
  unfolding no_namespace
  assert_no_namespace name s = if no_namespace a name then ok (okay, s) else panic

  -- The loop over the attributes.
  unfoldable pub write_attrs : List (Attribute Atom) → Method o a
  unfolding put_str put_char write_escaped assert_no_namespace
  write_attrs [] = done
  write_attrs (at ∷ attrs) =
      put_char b' '
      >> assert_no_namespace at.name
      >> put_str (as_slice at.name.local)
      >> put_str (codes "=\"")
      >> write_escaped at.value true
      >> put_char b'"'
      >> write_attrs attrs

  unfoldable pub push_elem : Atom → Bool → Method o a
  push_elem local ignore_children s = ok (
    okay,
    record s {
      stack =
          record {
            html_name = some local;
            ignore_children = ignore_children;
            processed_first_child = false;
          }
          ∷ s.stack;
    },
  )

  -- `self.parent().processed_first_child = true`.
  unfoldable pub note_child : Method o a
  note_child s = elim s.stack [
    | [] ↦ panic
    | info ∷ rest ↦
        ok (okay, record s { stack = record info { processed_first_child = true } ∷ rest })
  ]

  -- The part of `start_elem` behind the test on the parent.
  unfoldable pub open_tag : QualName Atom → List (Attribute Atom) → Method o a
  unfolding put_str put_char write_attrs push_elem note_child local_in is_html
  open_tag name attrs =
      put_char b'<'
      >> put_str (as_slice name.local)
      >> write_attrs attrs
      >> put_char b'>'
      >> note_child
      >> push_elem name.local (is_html a name && local_in a name void_elements)

  unfoldable pub start_elem : QualName Atom → List (Attribute Atom) → Method o a
  unfolding is_html parent push_elem open_tag
  start_elem name attrs s =
      if is_html a name
      then (parent s >>= λ info.
          if info.ignore_children then push_elem name.local true s else open_tag name attrs s)
      else panic

  unfoldable pub close_tag : QualName Atom → Method o a
  unfolding put_str put_char
  close_tag name = put_str (codes "</") >> put_str (as_slice name.local) >> put_char b'>'

  unfoldable pub end_elem : QualName Atom → Method o a
  unfolding close_tag
  end_elem name s = elim s.stack [
    | [] ↦ panic
    | info ∷ rest ↦
        let s' = record s { stack = rest } in
        if info.ignore_children then ok (okay, s') else close_tag name s'
  ]

  unfoldable pub put_lf : Bool → Method o a
  unfolding put_char
  put_lf lf = if lf then put_char b'\n' else done

  unfoldable pub write_text : Text → Method o a
  unfolding parent prepend_lf escapes put_lf put_str write_escaped
  write_text text s = parent s >>= λ info.
      let body = if escapes a s.opts info then write_escaped text false else put_str text in
      (put_lf (prepend_lf a info text) >> body) s

  unfoldable pub write_comment : Text → Method o a
  unfolding put_str
  write_comment text = put_str (codes "<!--") >> put_str text >> put_str (codes "-->")

  unfoldable pub write_doctype : Text → Method o a
  unfolding put_str put_char
  write_doctype name = put_str (codes "<!DOCTYPE ") >> put_str name >> put_char b'\n'
