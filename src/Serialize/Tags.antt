-- ===== src/Serialize/Tags.antt =====
-- src/serialize/mod.rs: what each method writes, and what it does to the stack of elements.
use html.Prelude.{
  ◌≡◌, refl, Bool, Option, none, some, not, ◌&&◌, ◌||◌, ◌++◌, ◌==◌, if◌then◌else◌, contains_text,
  text_eq, ap, subst, arith, true, false, List, [], ◌∷◌, Text, codes, All, ok, if-taken, if-skipped,
}
use html.Tokenizer.Interface.{QualName, Attribute}
use html.Names.{Atoms, is_html, no_namespace}
use html.Serialize.{
  Output, SerializeOpts, ElemInfo, okay, assert_no_namespace, write_attrs, push_elem, note_child,
  open_tag, start_elem, close_tag, end_elem, prepend_lf, escapes, named_in, starts_with_lf,
  raw_elements, lf_elements, put_lf, parent, write_text, write_comment, write_doctype,
}
use html.Serialize.Writes.{
  IsWriter, with_writer, Ends, Steps, >>-Steps, stack-Steps, done-Steps, if-Steps, put_str-Steps,
  put_char-Steps,
}
use html.Serialize.Markup.{
  drops_lf, is_literal, leads_with_lf, attrs_text, start_text, end_text, is_void, inner_text,
  comment_text, doctype_text, opened,
}
use html.Serialize.Escape.{escaped, write_escaped-Steps}

abbrev pub noted : {Atom : Type 0} → ElemInfo Atom → ElemInfo Atom
noted info = record info { processed_first_child = true }

-- The two orders of a test.
swap : (leads first drops : Bool) → (leads && (first && drops)) ≡ (first && (drops && leads))
swap leads first drops = ground arith

all_false : (first drops : Bool) → false ≡ (first && (drops && false))
all_false first drops = ground arith

raw_or_noscript :
    (raw noscript : Bool)
    → (if raw then false else if noscript || false then false else true) ≡ not (noscript || raw)
raw_or_noscript raw noscript = ground arith

raw_only :
    (raw noscript : Bool)
    → (if raw then false else if noscript || false then true else true) ≡ not raw
raw_only raw noscript = ground arith

if-not : (b : Bool) (x y : Text) → (if not b then x else y) ≡ (if b then y else x)
if-not true x y = refl
if-not false x y = refl

module _ (a : Atoms) where
  prepend_lf-eq :
      (info : ElemInfo a.Atom) (t : Text)
      → prepend_lf a info t
        ≡ (not info.processed_first_child && (drops_lf a info.html_name && leads_with_lf t))
  unfolding prepend_lf named_in starts_with_lf
  prepend_lf-eq info [] = all_false (not info.processed_first_child) (drops_lf a info.html_name)
  prepend_lf-eq info (c ∷ t) = by_name info.html_name (not info.processed_first_child) (c == 10)
    where
      by_name :
          (name : Option a.Atom) (first leads : Bool)
          → (leads && (first && named_in a name lf_elements))
            ≡ (first && (drops_lf a name && leads))
      by_name none true true = refl
      by_name none false true = refl
      by_name none true false = refl
      by_name none false false = refl
      by_name (some n) first leads = swap leads first (contains_text lf_elements (a.as_slice n))

  escapes-eq :
      (opts : SerializeOpts) (info : ElemInfo a.Atom)
      → escapes a opts info ≡ not (is_literal a opts.scripting_enabled info.html_name)
  unfolding escapes named_in
  escapes-eq opts info = by_name info.html_name opts.scripting_enabled
    where
      by_name :
          (name : Option a.Atom) (scripting : Bool)
          → (if named_in a name raw_elements
              then false
              else if named_in a name (codes "noscript" ∷ [])
              then not scripting
              else true)
            ≡ not (is_literal a scripting name)
      by_name none true = refl
      by_name none false = refl
      by_name (some n) true =
          raw_or_noscript (contains_text raw_elements (a.as_slice n))
            (text_eq (a.as_slice n) (codes "noscript"))
      by_name (some n) false =
          raw_only (contains_text raw_elements (a.as_slice n))
            (text_eq (a.as_slice n) (codes "noscript"))

  -- What write_text writes, by its own tests.
  inner_text-eq :
      (opts : SerializeOpts) (info : ElemInfo a.Atom) (t : Text)
      → ((if prepend_lf a info t then codes "\n" else [])
          ++ (if escapes a opts info then escaped false t else t))
        ≡ inner_text a opts info t
  unfolding inner_text
  inner_text-eq opts info t = rw (prepend_lf-eq info t) (
      rw (escapes-eq opts info) (
        ap
          (λ l.
            (if not info.processed_first_child && (drops_lf a info.html_name && leads_with_lf t)
              then codes "\n"
              else [])
            ++ l)
          (if-not (is_literal a opts.scripting_enabled info.html_name) (escaped false t) t)))

module _ {o : Output} {a : Atoms} {Has : o.Writer → Text → Type 0}
    {Failed : o.Writer → o.IoError → Type 0} where
  asserted-Steps :
      {opts : SerializeOpts} {stack : List (ElemInfo a.Atom)} (name : QualName a.Atom)
      → no_namespace a name ≡ true
      → Steps o a Has Failed opts stack stack [] (assert_no_namespace o a name)
  unfolding assert_no_namespace no_namespace
  asserted-Steps {opts} {stack} name h = stack-Steps opts stack stack _ (λ w. rw h refl)

  push_elem-Steps :
      {opts : SerializeOpts} {stack : List (ElemInfo a.Atom)} (name : QualName a.Atom)
      (skips : Bool)
      → Steps o a Has Failed opts stack
          (opened a name skips ∷ stack)
          []
          (push_elem o a name.local skips)
  unfolding push_elem opened
  push_elem-Steps {opts} {stack} name skips = stack-Steps opts stack _ _ (λ w. refl)

  note_child-Steps :
      {opts : SerializeOpts} {info : ElemInfo a.Atom} {stack : List (ElemInfo a.Atom)}
      → Steps o a Has Failed opts (info ∷ stack) (noted info ∷ stack) [] (note_child o a)
  unfolding note_child
  note_child-Steps {opts} {info} {stack} = stack-Steps opts (info ∷ stack) _ _ (λ w. refl)

  module _ (writer : IsWriter o Has Failed) {opts : SerializeOpts} where
    write_attrs-Steps :
        {stack : List (ElemInfo a.Atom)} (attrs : List (Attribute a.Atom))
        → All (λ at. no_namespace a at.name ≡ true) attrs
        → Steps o a Has Failed opts stack stack (attrs_text a attrs) (write_attrs o a attrs)
    unfolding attrs_text write_attrs
    write_attrs-Steps [] h = done-Steps
    write_attrs-Steps (at ∷ attrs) h = >>-Steps (put_char-Steps writer b' ') (
        >>-Steps (asserted-Steps at.name h.0) (
          >>-Steps (put_str-Steps writer (a.as_slice at.name.local)) (
            >>-Steps (put_str-Steps writer (codes "=\"")) (
              >>-Steps (write_escaped-Steps writer at.value true)
                (>>-Steps (put_char-Steps writer b'"') (write_attrs-Steps attrs h.1))))))

    open_tag-Steps :
        {info : ElemInfo a.Atom} {stack : List (ElemInfo a.Atom)} (name : QualName a.Atom)
        (attrs : List (Attribute a.Atom))
        → All (λ at. no_namespace a at.name ≡ true) attrs
        → Steps o a Has Failed opts
            (info ∷ stack)
            (opened a name (is_void a name) ∷ noted info ∷ stack)
            (start_text a name attrs)
            (open_tag o a name attrs)
    unfolding start_text is_void open_tag
    open_tag-Steps name attrs h = >>-Steps (put_char-Steps writer b'<') (
        >>-Steps (put_str-Steps writer (a.as_slice name.local)) (
          >>-Steps (write_attrs-Steps attrs h) (
            >>-Steps (put_char-Steps writer b'>')
              (>>-Steps note_child-Steps (push_elem-Steps name (is_void a name))))))

    pub start_elem-Steps :
        {info : ElemInfo a.Atom} {stack : List (ElemInfo a.Atom)} (name : QualName a.Atom)
        (attrs : List (Attribute a.Atom))
        → is_html a name ≡ true
        → All (λ at. no_namespace a at.name ≡ true) attrs
        → info.ignore_children ≡ false
        → Steps o a Has Failed opts
            (info ∷ stack)
            (opened a name (is_void a name) ∷ noted info ∷ stack)
            (start_text a name attrs)
            (start_elem o a name attrs)
    unfolding start_elem parent
    start_elem-Steps {info} {stack} name attrs html h shown = record {
      run = λ text w at. if-taken (Ends o a Has Failed opts _ _) _ html (
          if-skipped (Ends o a Has Failed opts _ _) _ shown
            ((open_tag-Steps name attrs h).run text w at));
    }

    pub start_elem-skipped :
        {info : ElemInfo a.Atom} {stack : List (ElemInfo a.Atom)} (name : QualName a.Atom)
        (attrs : List (Attribute a.Atom))
        → is_html a name ≡ true
        → info.ignore_children ≡ true
        → Steps o a Has Failed opts
            (info ∷ stack)
            (opened a name true ∷ info ∷ stack)
            []
            (start_elem o a name attrs)
    unfolding start_elem parent
    start_elem-skipped {info} {stack} name attrs html skipped = record {
      run = λ text w at. if-taken (Ends o a Has Failed opts _ _) _ html (
          if-taken (Ends o a Has Failed opts _ _) _ skipped
            ((push_elem-Steps name true).run text w at));
    }

    close_tag-Steps :
        {stack : List (ElemInfo a.Atom)} (name : QualName a.Atom)
        → Steps o a Has Failed opts stack stack (end_text a name) (close_tag o a name)
    unfolding end_text close_tag
    close_tag-Steps name =
        >>-Steps (put_str-Steps writer (codes "</"))
          (>>-Steps (put_str-Steps writer (a.as_slice name.local)) (put_char-Steps writer b'>'))

    pub end_elem-Steps :
        {info : ElemInfo a.Atom} {stack : List (ElemInfo a.Atom)} (name : QualName a.Atom)
        → info.ignore_children ≡ false
        → Steps o a Has Failed opts (info ∷ stack) stack (end_text a name) (end_elem o a name)
    unfolding end_elem
    end_elem-Steps name shown = record {
      run = λ text w at.
          if-skipped (Ends o a Has Failed opts _ _) _ shown ((close_tag-Steps name).run text w at);
    }

    pub end_elem-skipped :
        {info : ElemInfo a.Atom} {stack : List (ElemInfo a.Atom)} (name : QualName a.Atom)
        → info.ignore_children ≡ true
        → Steps o a Has Failed opts (info ∷ stack) stack [] (end_elem o a name)
    unfolding end_elem
    end_elem-skipped {info} {stack} name skipped =
        stack-Steps opts (info ∷ stack) stack _
          (λ w. if-taken (λ r. r ≡ ok (okay, with_writer opts stack w)) _ skipped refl)

    pub write_text-Steps :
        {info : ElemInfo a.Atom} {stack : List (ElemInfo a.Atom)} (t : Text)
        → Steps o a Has Failed opts
            (info ∷ stack)
            (info ∷ stack)
            (inner_text a opts info t)
            (write_text o a t)
    unfolding write_text parent put_lf
    write_text-Steps {info} {stack} t = record {
      run =
          subst
            (λ l.
              (text : Text) (w : o.Writer)
              → Has w text
              → Ends o a Has Failed opts (info ∷ stack) (text ++ l)
                  (write_text o a t (with_writer opts (info ∷ stack) w)))
            (inner_text-eq a opts info t)
            (>>-Steps (if-Steps (prepend_lf a info t) (put_char-Steps writer b'\n') done-Steps) (
              if-Steps (escapes a opts info) (write_escaped-Steps writer t false)
                (put_str-Steps writer t))).run;
    }

    pub write_comment-Steps :
        {stack : List (ElemInfo a.Atom)} (t : Text)
        → Steps o a Has Failed opts stack stack (comment_text t) (write_comment o a t)
    unfolding comment_text write_comment
    write_comment-Steps t =
        >>-Steps (put_str-Steps writer (codes "<!--"))
          (>>-Steps (put_str-Steps writer t) (put_str-Steps writer (codes "-->")))

    pub write_doctype-Steps :
        {stack : List (ElemInfo a.Atom)} (name : Text)
        → Steps o a Has Failed opts stack stack (doctype_text name) (write_doctype o a name)
    unfolding doctype_text write_doctype
    write_doctype-Steps name =
        >>-Steps (put_str-Steps writer (codes "<!DOCTYPE "))
          (>>-Steps (put_str-Steps writer name) (put_char-Steps writer b'\n'))
