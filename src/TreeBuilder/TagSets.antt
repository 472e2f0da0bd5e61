-- ===== src/TreeBuilder/TagSets.antt =====
-- src/tree_builder/tag_sets.rs: sets of names of HTML elements, and the macros that declare them.
use html.Prelude.{Bool, true, not, ◌&&◌, ◌||◌, List, [], ◌∷◌, Text, codes}
use html.Tokenizer.Interface.{QualName}
use html.Names.{Atoms, is_html, local_in}

module _ (a : Atoms) where
  abbrev pub TagSet : Type 0
  TagSet = QualName a.Atom → Bool

  -- The patterns `qualname!(HTML, $tag)` of a declaration.
  unfoldable pub one_of : List Text → TagSet
  unfolding is_html local_in
  one_of tags p = is_html a p && local_in a p tags

  -- A declaration with `+` or `-`, over another set.
  unfoldable pub with_tags : TagSet → List Text → TagSet
  unfolding one_of
  with_tags supr tags p = one_of tags p || supr p

  unfoldable pub without_tags : TagSet → List Text → TagSet
  unfolding one_of
  without_tags supr tags p = not (one_of tags p) && supr p

  unfoldable pub full_set : TagSet
  full_set p = true

  unfoldable pub default_scope : TagSet
  unfolding one_of
  default_scope = one_of (
      codes "applet"
      ∷ codes "caption"
      ∷ codes "html"
      ∷ codes "table"
      ∷ codes "td"
      ∷ codes "th"
      ∷ codes "marquee"
      ∷ codes "object"
      ∷ codes "template"
      ∷ [])

  unfoldable pub list_item_scope : TagSet
  unfolding with_tags default_scope
  list_item_scope = with_tags default_scope (codes "ol" ∷ codes "ul" ∷ [])

  unfoldable pub button_scope : TagSet
  unfolding with_tags default_scope
  button_scope = with_tags default_scope (codes "button" ∷ [])

  unfoldable pub table_scope : TagSet
  unfolding one_of
  table_scope = one_of (codes "html" ∷ codes "table" ∷ codes "template" ∷ [])

  unfoldable pub select_scope : TagSet
  unfolding without_tags full_set
  select_scope = without_tags full_set (codes "optgroup" ∷ codes "option" ∷ [])

  unfoldable pub table_body_context : TagSet
  unfolding one_of
  table_body_context =
      one_of (codes "tbody" ∷ codes "tfoot" ∷ codes "thead" ∷ codes "template" ∷ codes "html" ∷ [])

  unfoldable pub table_row_context : TagSet
  unfolding one_of
  table_row_context = one_of (codes "tr" ∷ codes "template" ∷ codes "html" ∷ [])

  unfoldable pub td_th : TagSet
  unfolding one_of
  td_th = one_of (codes "td" ∷ codes "th" ∷ [])

  unfoldable pub cursory_implied_end : TagSet
  unfolding one_of
  cursory_implied_end = one_of (
      codes "dd"
      ∷ codes "dt"
      ∷ codes "li"
      ∷ codes "option"
      ∷ codes "optgroup"
      ∷ codes "p"
      ∷ codes "rp"
      ∷ codes "rt"
      ∷ [])

  unfoldable pub thorough_implied_end : TagSet
  unfolding with_tags cursory_implied_end
  thorough_implied_end = with_tags cursory_implied_end (
      codes "caption"
      ∷ codes "colgroup"
      ∷ codes "tbody"
      ∷ codes "td"
      ∷ codes "tfoot"
      ∷ codes "th"
      ∷ codes "thead"
      ∷ codes "tr"
      ∷ [])

  unfoldable pub heading_tag : TagSet
  unfolding one_of
  heading_tag =
      one_of (codes "h1" ∷ codes "h2" ∷ codes "h3" ∷ codes "h4" ∷ codes "h5" ∷ codes "h6" ∷ [])

  unfoldable pub special_tag : TagSet
  unfolding one_of
  special_tag = one_of (
      codes "address"
      ∷ codes "applet"
      ∷ codes "area"
      ∷ codes "article"
      ∷ codes "aside"
      ∷ codes "base"
      ∷ codes "basefont"
      ∷ codes "bgsound"
      ∷ codes "blockquote"
      ∷ codes "body"
      ∷ codes "br"
      ∷ codes "button"
      ∷ codes "caption"
      ∷ codes "center"
      ∷ codes "col"
      ∷ codes "colgroup"
      ∷ codes "dd"
      ∷ codes "details"
      ∷ codes "dir"
      ∷ codes "div"
      ∷ codes "dl"
      ∷ codes "dt"
      ∷ codes "embed"
      ∷ codes "fieldset"
      ∷ codes "figcaption"
      ∷ codes "figure"
      ∷ codes "footer"
      ∷ codes "form"
      ∷ codes "frame"
      ∷ codes "frameset"
      ∷ codes "h1"
      ∷ codes "h2"
      ∷ codes "h3"
      ∷ codes "h4"
      ∷ codes "h5"
      ∷ codes "h6"
      ∷ codes "head"
      ∷ codes "header"
      ∷ codes "hgroup"
      ∷ codes "hr"
      ∷ codes "html"
      ∷ codes "iframe"
      ∷ codes "img"
      ∷ codes "input"
      ∷ codes "isindex"
      ∷ codes "li"
      ∷ codes "link"
      ∷ codes "listing"
      ∷ codes "main"
      ∷ codes "marquee"
      ∷ codes "menu"
      ∷ codes "menuitem"
      ∷ codes "meta"
      ∷ codes "nav"
      ∷ codes "noembed"
      ∷ codes "noframes"
      ∷ codes "noscript"
      ∷ codes "object"
      ∷ codes "ol"
      ∷ codes "p"
      ∷ codes "param"
      ∷ codes "plaintext"
      ∷ codes "pre"
      ∷ codes "script"
      ∷ codes "section"
      ∷ codes "select"
      ∷ codes "source"
      ∷ codes "style"
      ∷ codes "summary"
      ∷ codes "table"
      ∷ codes "tbody"
      ∷ codes "td"
      ∷ codes "template"
      ∷ codes "textarea"
      ∷ codes "tfoot"
      ∷ codes "th"
      ∷ codes "thead"
      ∷ codes "title"
      ∷ codes "tr"
      ∷ codes "track"
      ∷ codes "ul"
      ∷ codes "wbr"
      ∷ codes "xmp"
      ∷ [])
