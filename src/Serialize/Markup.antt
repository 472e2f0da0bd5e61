-- ===== src/Serialize/Markup.antt =====
-- The markup of tags and texts, by lists of names of its own, which the methods of
-- src/serialize/mod.rs are to write.
use html.Prelude.{
  Bool, Option, none, some, true, false, ◌==◌, not, contains_text, text_eq, ◌||◌, ◌&&◌, List, [],
  ◌∷◌, ◌++◌, if◌then◌else◌, Text, codes,
}
use html.Tokenizer.Interface.{QualName, Attribute}
use html.Names.{Atoms, is_html, local_in}
use html.Serialize.{SerializeOpts, ElemInfo}
use html.Serialize.Escape.{escaped}

unfoldable pub comment_text : Text → Text
comment_text t = codes "<!--" ++ (t ++ codes "-->")

unfoldable pub doctype_text : Text → Text
doctype_text name = codes "<!DOCTYPE " ++ (name ++ codes "\n")

-- The names of the elements without content and end tag.
abbrev void_names : List Text
void_names =
    codes "area"
    ∷ codes "base"
    ∷ codes "basefont"
    ∷ codes "bgsound"
    ∷ codes "br"
    ∷ codes "col"
    ∷ codes "embed"
    ∷ codes "frame"
    ∷ codes "hr"
    ∷ codes "img"
    ∷ codes "input"
    ∷ codes "keygen"
    ∷ codes "link"
    ∷ codes "menuitem"
    ∷ codes "meta"
    ∷ codes "param"
    ∷ codes "source"
    ∷ codes "track"
    ∷ codes "wbr"
    ∷ []

abbrev lf_names : List Text
lf_names = codes "pre" ∷ codes "textarea" ∷ codes "listing" ∷ []

-- The names of the elements whose text is always literal.
abbrev literal_names : List Text
literal_names =
    codes "style"
    ∷ codes "script"
    ∷ codes "xmp"
    ∷ codes "iframe"
    ∷ codes "noembed"
    ∷ codes "noframes"
    ∷ codes "plaintext"
    ∷ []

-- A text that starts with a line feed.
abbrev pub leads_with_lf : Text → Bool
leads_with_lf [] = false
leads_with_lf (c ∷ t) = c == 10

module _ (a : Atoms) where
  open a use {Atom, as_slice}

  unfoldable pub attrs_text : List (Attribute Atom) → Text
  attrs_text [] = []
  attrs_text (at ∷ attrs) =
      codes " "
      ++ (as_slice at.name.local
          ++ (codes "=\"" ++ (escaped true at.value ++ (codes "\"" ++ attrs_text attrs))))

  unfoldable pub start_text : QualName Atom → List (Attribute Atom) → Text
  start_text name attrs = codes "<" ++ (as_slice name.local ++ (attrs_text attrs ++ codes ">"))

  unfoldable pub end_text : QualName Atom → Text
  end_text name = codes "</" ++ (as_slice name.local ++ codes ">")

  unfoldable pub is_void : QualName Atom → Bool
  is_void name = is_html a name && local_in a name void_names

  -- The parser drops a line feed at the start of these elements.
  abbrev pub drops_lf : Option Atom → Bool
  drops_lf none = false
  drops_lf (some local) = contains_text lf_names (as_slice local)

  -- In these elements the parser reads no character references; `noscript` is one of them if
  -- scripting is enabled.
  abbrev pub is_literal : Bool → Option Atom → Bool
  is_literal scripting none = false
  is_literal scripting (some local) =
      (scripting && text_eq (as_slice local) (codes "noscript"))
      || contains_text literal_names (as_slice local)

  -- A text inside an element: behind a line feed of its own if the parser would drop the one that
  -- it starts with, and as it is in the elements whose text is literal.
  unfoldable pub inner_text : SerializeOpts → ElemInfo Atom → Text → Text
  inner_text opts info t =
      (if not info.processed_first_child && (drops_lf info.html_name && leads_with_lf t)
        then codes "\n"
        else [])
      ++ (if is_literal opts.scripting_enabled info.html_name then t else escaped false t)

  -- What a new element on the stack is.
  unfoldable pub opened : QualName Atom → Bool → ElemInfo Atom
  opened name skips = record {
    html_name = some name.local;
    ignore_children = skips;
    processed_first_child = false;
  }
