-- ===== src/TreeBuilder/Quirks.antt =====
-- src/tree_builder/data.rs: the identifiers of a doctype are matched without regard to case.
use html.Prelude.{
  ℕ, ◌≡◌, refl, ap, sym, ◌∙◌, Bool, true, false, not, ◌&&◌, Option, some, List, [], ◌∷◌, ◌++◌, Text,
  codes, text_eq, ==_refl, arith, contains_text, text_eq-eq, if-same, if-taken, subst, Bool-cases,
  inl, inr, append_assoc,
}
use mathlib.Core.List.{map-append}
use html.Util.Utf8.{encode_utf8, bytes}
use html.Util.Str.{ascii_lower_map, to_ascii_lower, eq_ignore_ascii_case}
use html.Util.Str.Laws.{eq_ignore_ascii_case_iff}
use html.Tokenizer.Interface.{Doctype}
use html.TreeBuilder.Interface.{quirks}
use html.TreeBuilder.Data.{
  quirky_public_prefixes, quirky_public_matches, quirky_system_matches, starts_with, contains_pfx,
  contains_str, is_str, some_and, opt_to_ascii_lower, quirks_of, doctype_error_and_quirks,
}

-- No string of a table has a capital.
lowers : List Text → Bool
lowers [] = true
lowers (x ∷ xs) = text_eq (to_ascii_lower (bytes x)) (bytes x) && lowers xs

prefixes_lower : lowers quirky_public_prefixes ≡ true
unfolding lowers to_ascii_lower bytes ascii_lower_map
prefixes_lower = refl

lowers-contains :
    (xs : List Text) (x : Text)
    → lowers xs ≡ true
    → contains_text xs x ≡ true
    → to_ascii_lower (bytes x) ≡ bytes x
unfolding lowers
lowers-contains [] x all e = ground arith
lowers-contains (y ∷ xs) x all e = elim (Bool-cases (text_eq x y)) [
  | inl f ↦ rw (text_eq-eq x y f) (text_eq-eq (to_ascii_lower (bytes y)) (bytes y) (ground arith))
  | inr f ↦ lowers-contains xs x (ground arith) (ground arith)
]

starts_with-append : (x y : List ℕ) → starts_with (x ++ y) x ≡ true
starts_with-append [] y = refl
starts_with-append (c ∷ x) y = ground (arith, ==_refl c, starts_with-append x y)

contains_pfx-append :
    (xs : List Text) (x : Text) (y : List ℕ)
    → contains_text xs x ≡ true
    → contains_pfx xs (bytes x ++ y) ≡ true
unfolding contains_pfx
contains_pfx-append [] x y e = ground arith
contains_pfx-append (z ∷ xs) x y e = elim (Bool-cases (text_eq x z)) [
  | inl f ↦ rw (text_eq-eq x z f) (ground (arith, starts_with-append (bytes z) y))
  | inr f ↦ ground (arith, contains_pfx-append xs x y (ground arith))
]

bytes-append : (x y : Text) → bytes (x ++ y) ≡ bytes x ++ bytes y
unfolding bytes
bytes-append [] y = refl
bytes-append (c ∷ x) y =
    ap (λ l. encode_utf8 c ++ l) (bytes-append x y)
    ∙ sym (append_assoc (encode_utf8 c) (bytes x) (bytes y))

-- The lowered bytes of a text that starts with an entry of a table up to case.
lowered_prefix :
    (front rest x : Text)
    → eq_ignore_ascii_case (bytes front) (bytes x) ≡ true
    → to_ascii_lower (bytes x) ≡ bytes x
    → to_ascii_lower (bytes (front ++ rest)) ≡ bytes x ++ to_ascii_lower (bytes rest)
unfolding to_ascii_lower
lowered_prefix front rest x same low =
    let e : to_ascii_lower (bytes front) ≡ bytes x =
      (eq_ignore_ascii_case_iff (bytes front) (bytes x)).0 same ∙ low in
    ap to_ascii_lower (bytes-append front rest)
    ∙ (to_ascii_lower-append (bytes front) (bytes rest)
        ∙ ap (λ l. l ++ to_ascii_lower (bytes rest)) e)
  where
    to_ascii_lower-append :
        (xs ys : List ℕ) → to_ascii_lower (xs ++ ys) ≡ to_ascii_lower xs ++ to_ascii_lower ys
    to_ascii_lower-append xs ys = map-append ascii_lower_map xs ys

quirks_of-prefix :
    (p : List ℕ) (system : Option (List ℕ))
    → contains_pfx quirky_public_prefixes p ≡ true
    → quirks_of (some p) system ≡ quirks
unfolding quirks_of
quirks_of-prefix p system e = if-same (contains_str quirky_public_matches p) (
    if-same (some_and system (contains_str quirky_system_matches))
      (if-taken (λ q. q ≡ quirks) _ e refl))

-- A doctype whose public identifier starts, up to the case of ASCII letters, with an entry of the
-- table of quirky prefixes puts a document that is not an iframe srcdoc into quirks mode,
-- whatever its name, its system identifier and its flag are.
pub doctype_error_and_quirks-prefix :
    (d : Doctype) (front rest x : Text)
    → d.public_id ≡ some (front ++ rest)
    → contains_text quirky_public_prefixes x ≡ true
    → eq_ignore_ascii_case (bytes front) (bytes x) ≡ true
    → (doctype_error_and_quirks d false).1 ≡ quirks
unfolding doctype_error_and_quirks opt_to_ascii_lower
doctype_error_and_quirks-prefix d front rest x public entry same =
    let low = lowers-contains quirky_public_prefixes x prefixes_lower entry in
    let e = lowered_prefix front rest x same low in
    let has = contains_pfx-append quirky_public_prefixes x (to_ascii_lower (bytes rest)) entry in
    if-same d.force_quirks (
      if-same (not (is_str d.name (codes "html"))) (
        subst (λ p. quirks_of (opt_to_ascii_lower p) (opt_to_ascii_lower d.system_id) ≡ quirks)
          (sym public)
          (quirks_of-prefix (to_ascii_lower (bytes (front ++ rest)))
            (opt_to_ascii_lower d.system_id) (rw e has))))
