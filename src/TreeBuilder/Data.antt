-- ===== src/TreeBuilder/Data.antt =====
-- src/tree_builder/data.rs: what a doctype says about the quirks mode.
use html.Prelude.{
  ℕ, Bool, true, false, not, ◌&&◌, ◌||◌, Option, none, some, List, [], ◌∷◌, ◌==◌, if◌then◌else◌,
  Text, codes, text_eq,
}
use html.Util.Utf8.{bytes}
use html.Util.Str.{to_ascii_lower}
use html.Tokenizer.Interface.{Doctype}
use html.TreeBuilder.Interface.{QuirksMode, quirks, limited_quirks, no_quirks}

abbrev pub quirky_public_prefixes : List Text
quirky_public_prefixes =
    codes "-//advasoft ltd//dtd html 3.0 aswedit + extensions//"
    ∷ codes "-//as//dtd html 3.0 aswedit + extensions//"
    ∷ codes "-//ietf//dtd html 2.0 level 1//"
    ∷ codes "-//ietf//dtd html 2.0 level 2//"
    ∷ codes "-//ietf//dtd html 2.0 strict level 1//"
    ∷ codes "-//ietf//dtd html 2.0 strict level 2//"
    ∷ codes "-//ietf//dtd html 2.0 strict//"
    ∷ codes "-//ietf//dtd html 2.0//"
    ∷ codes "-//ietf//dtd html 2.1e//"
    ∷ codes "-//ietf//dtd html 3.0//"
    ∷ codes "-//ietf//dtd html 3.2 final//"
    ∷ codes "-//ietf//dtd html 3.2//"
    ∷ codes "-//ietf//dtd html 3//"
    ∷ codes "-//ietf//dtd html level 0//"
    ∷ codes "-//ietf//dtd html level 1//"
    ∷ codes "-//ietf//dtd html level 2//"
    ∷ codes "-//ietf//dtd html level 3//"
    ∷ codes "-//ietf//dtd html strict level 0//"
    ∷ codes "-//ietf//dtd html strict level 1//"
    ∷ codes "-//ietf//dtd html strict level 2//"
    ∷ codes "-//ietf//dtd html strict level 3//"
    ∷ codes "-//ietf//dtd html strict//"
    ∷ codes "-//ietf//dtd html//"
    ∷ codes "-//metrius//dtd metrius presentational//"
    ∷ codes "-//microsoft//dtd internet explorer 2.0 html strict//"
    ∷ codes "-//microsoft//dtd internet explorer 2.0 html//"
    ∷ codes "-//microsoft//dtd internet explorer 2.0 tables//"
    ∷ codes "-//microsoft//dtd internet explorer 3.0 html strict//"
    ∷ codes "-//microsoft//dtd internet explorer 3.0 html//"
    ∷ codes "-//microsoft//dtd internet explorer 3.0 tables//"
    ∷ codes "-//netscape comm. corp.//dtd html//"
    ∷ codes "-//netscape comm. corp.//dtd strict html//"
    ∷ codes "-//o'reilly and associates//dtd html 2.0//"
    ∷ codes "-//o'reilly and associates//dtd html extended 1.0//"
    ∷ codes "-//o'reilly and associates//dtd html extended relaxed 1.0//"
    ∷ codes "-//softquad software//dtd hotmetal pro 6.0::19990601::extensions to html 4.0//"
    ∷ codes "-//softquad//dtd hotmetal pro 4.0::19971010::extensions to html 4.0//"
    ∷ codes "-//spyglass//dtd html 2.0 extended//"
    ∷ codes "-//sq//dtd html 2.0 hotmetal + extensions//"
    ∷ codes "-//sun microsystems corp.//dtd hotjava html//"
    ∷ codes "-//sun microsystems corp.//dtd hotjava strict html//"
    ∷ codes "-//w3c//dtd html 3 1995-03-24//"
    ∷ codes "-//w3c//dtd html 3.2 draft//"
    ∷ codes "-//w3c//dtd html 3.2 final//"
    ∷ codes "-//w3c//dtd html 3.2//"
    ∷ codes "-//w3c//dtd html 3.2s draft//"
    ∷ codes "-//w3c//dtd html 4.0 frameset//"
    ∷ codes "-//w3c//dtd html 4.0 transitional//"
    ∷ codes "-//w3c//dtd html experimental 19960712//"
    ∷ codes "-//w3c//dtd html experimental 970421//"
    ∷ codes "-//w3c//dtd w3 html//"
    ∷ codes "-//w3o//dtd w3 html 3.0//"
    ∷ codes "-//webtechs//dtd mozilla html 2.0//"
    ∷ codes "-//webtechs//dtd mozilla html//"
    ∷ []

abbrev pub quirky_public_matches : List Text
quirky_public_matches =
    codes "-//w3o//dtd w3 html strict 3.0//en//"
    ∷ codes "-/w3c/dtd html 4.0 transitional/en"
    ∷ codes "html"
    ∷ []

abbrev pub quirky_system_matches : List Text
quirky_system_matches = codes "http://www.ibm.com/data/dtd/v11/ibmxhtml1-transitional.dtd" ∷ []

abbrev pub limited_quirky_public_prefixes : List Text
limited_quirky_public_prefixes =
    codes "-//w3c//dtd xhtml 1.0 frameset//" ∷ codes "-//w3c//dtd xhtml 1.0 transitional//" ∷ []

abbrev pub html4_public_prefixes : List Text
html4_public_prefixes =
    codes "-//w3c//dtd html 4.01 frameset//" ∷ codes "-//w3c//dtd html 4.01 transitional//" ∷ []

-- Strings compare by their bytes.
abbrev pub starts_with : List ℕ → List ℕ → Bool
starts_with s [] = true
starts_with [] (p ∷ pre) = false
starts_with (c ∷ s) (p ∷ pre) = c == p && starts_with s pre

unfoldable pub contains_pfx : List Text → List ℕ → Bool
unfolding bytes
contains_pfx [] needle = false
contains_pfx (x ∷ haystack) needle = starts_with needle (bytes x) || contains_pfx haystack needle

-- `contains` of a table.
unfoldable pub contains_str : List Text → List ℕ → Bool
unfolding bytes
contains_str [] needle = false
contains_str (x ∷ haystack) needle = text_eq needle (bytes x) || contains_str haystack needle

-- A pattern `Some("...")`, and a pattern `None`.
abbrev pub is_str : Option Text → Text → Bool
is_str none s = false
is_str (some t) s = text_eq t s

abbrev pub is_none : Option Text → Bool
is_none none = true
is_none (some t) = false

-- The bytes of a lowered string.
unfoldable pub opt_to_ascii_lower : Option Text → Option (List ℕ)
unfolding bytes to_ascii_lower
opt_to_ascii_lower none = none
opt_to_ascii_lower (some t) = some (to_ascii_lower (bytes t))

-- The doctypes that are no error.
unfoldable pub is_conforming : Option Text → Option Text → Option Text → Bool
is_conforming name public system =
    is_str name (codes "html")
    && ((is_none public && (is_none system || is_str system (codes "about:legacy-compat")))
        || (is_str public (codes "-//W3C//DTD HTML 4.0//EN")
            && (is_none system
                || is_str system (codes "http://www.w3.org/TR/REC-html40/strict.dtd")))
        || (is_str public (codes "-//W3C//DTD HTML 4.01//EN")
            && (is_none system || is_str system (codes "http://www.w3.org/TR/html4/strict.dtd")))
        || (is_str public (codes "-//W3C//DTD XHTML 1.0 Strict//EN")
            && is_str system (codes "http://www.w3.org/TR/xhtml1/DTD/xhtml1-strict.dtd"))
        || (is_str public (codes "-//W3C//DTD XHTML 1.1//EN")
            && is_str system (codes "http://www.w3.org/TR/xhtml11/DTD/xhtml11.dtd")))

-- A test on an optional string that `None` does not pass.
abbrev pub some_and : Option (List ℕ) → (List ℕ → Bool) → Bool
some_and none test = false
some_and (some s) test = test s

-- The match on the lowered identifiers, behind its first three guards.
unfoldable pub quirks_of : Option (List ℕ) → Option (List ℕ) → QuirksMode
unfolding contains_pfx contains_str
quirks_of public system =
    if some_and public (contains_str quirky_public_matches)
    then quirks
    else if some_and system (contains_str quirky_system_matches)
    then quirks
    else if some_and public (contains_pfx quirky_public_prefixes)
    then quirks
    else if some_and public (contains_pfx limited_quirky_public_prefixes)
    then limited_quirks
    else if some_and public (contains_pfx html4_public_prefixes)
    then elim system [ none ↦ quirks | some s ↦ limited_quirks ]
    else no_quirks

unfoldable pub doctype_error_and_quirks : Doctype → Bool → Bool × QuirksMode
unfolding opt_to_ascii_lower is_conforming quirks_of
doctype_error_and_quirks doctype iframe_srcdoc =
    let quirk =
      if doctype.force_quirks
      then quirks
      else if not (is_str doctype.name (codes "html"))
      then quirks
      else if iframe_srcdoc
      then no_quirks
      else quirks_of (opt_to_ascii_lower doctype.public_id)
          (opt_to_ascii_lower doctype.system_id) in
    (not (is_conforming doctype.name doctype.public_id doctype.system_id), quirk)
