-- ===== src/Names.antt =====
-- The names of elements and attributes: the interned strings of the crate string_cache, and what
-- the macros `atom!`, `ns!` and `qualname!` stand for in a match.
use html.Prelude.{◌≡◌, Bool, ◌&&◌, List, [], Text, codes, text_eq, contains_text}
use html.Tokenizer.Interface.{QualName}

-- An atom keeps the text that it was made from, and equal texts are one atom.
pub record Atoms : Type 1 where
  pub Atom : Type 0
  pub from_slice : Text → Atom
  pub as_slice : Atom → Text
  pub as_slice-from_slice : (s : Text) → as_slice (from_slice s) ≡ s

-- The text of `ns!(HTML)`.
abbrev pub html_namespace : Text
html_namespace = codes "http://www.w3.org/1999/xhtml"

module _ (a : Atoms) where
  open a use {Atom, as_slice}

  unfoldable pub is_html : QualName Atom → Bool
  is_html name = text_eq (as_slice name.ns) html_namespace

  -- The name of an attribute has the namespace `ns!("")`.
  unfoldable pub no_namespace : QualName Atom → Bool
  no_namespace name = text_eq (as_slice name.ns) []

  -- A match of the local name against atoms.
  unfoldable pub local_in : QualName Atom → List Text → Bool
  local_in name tags = contains_text tags (as_slice name.local)

  -- The derived `==` of `QualName`.
  unfoldable pub qual_eq : QualName Atom → QualName Atom → Bool
  qual_eq x y =
      text_eq (as_slice x.ns) (as_slice y.ns) && text_eq (as_slice x.local) (as_slice y.local)
