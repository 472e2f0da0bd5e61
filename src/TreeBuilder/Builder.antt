-- ===== src/TreeBuilder/Builder.antt =====
-- src/tree_builder/mod.rs: the state of the tree builder, and actions on it. The stack of open
-- elements and the list of active formatting elements have their last element first.
use html.Prelude.{
  Bool, true, false, Option, none, List, [], Text, Checked, ok, panic, if◌then◌else◌,
}
use html.Tokenizer.States.{State}
use html.Names.{Atoms}
use html.TreeBuilder.Types.{InsertionMode, initial, SplitStatus, FormatEntry, TreeError, static}
use html.TreeBuilder.Interface.{QuirksMode, no_quirks, TreeSink}

pub record TreeBuilderOpts : Type 0 where
  pub exact_errors : Bool
  pub scripting_enabled : Bool
  pub iframe_srcdoc : Bool
  pub fragment : Bool
  pub drop_doctype : Bool
  pub ignore_missing_rules : Bool

-- `Default for TreeBuilderOpts`.
abbrev pub default_opts : TreeBuilderOpts
default_opts = record {
  exact_errors = false;
  scripting_enabled = true;
  iframe_srcdoc = false;
  fragment = false;
  drop_doctype = false;
  ignore_missing_rules = false;
}

pub record TreeBuilder (a : Atoms) (x : TreeSink a) : Type 0 where
  pub opts : TreeBuilderOpts
  pub sink : x.Sink
  pub mode : InsertionMode
  pub orig_mode : Option InsertionMode
  pub template_modes : List InsertionMode
  pub pending_table_text : List (SplitStatus × Text)
  pub quirks_mode : QuirksMode
  pub doc_handle : x.Handle
  pub open_elems : List x.Handle
  pub active_formatting : List (FormatEntry x.Handle a.Atom)
  pub head_elem : Option x.Handle
  pub form_elem : Option x.Handle
  pub next_tokenizer_state : Option State
  pub frameset_ok : Bool
  pub ignore_lf : Bool
  pub foster_parenting : Bool

-- A method that changes the tree builder.
abbrev pub Act : {a : Atoms} → TreeSink a → Type 0 → Type 0
Act {a} x A = TreeBuilder a x → Checked (A × TreeBuilder a x)

-- What follows a step, by what the step returns.
abbrev pub resume :
    {a : Atoms} {x : TreeSink a} {A B : Type 0}
    → (A → Act x B)
    → Checked (A × TreeBuilder a x)
    → Checked (B × TreeBuilder a x)
resume next panic = panic
resume next (ok r) = next r.0 r.1

infixl 5 ◌>>=◌
abbrev pub ◌>>=◌ : {a : Atoms} {x : TreeSink a} {A B : Type 0} → Act x A → (A → Act x B) → Act x B
(m >>= next) b = resume next (m b)

infixr 4 ◌>>◌
abbrev pub ◌>>◌ : {a : Atoms} {x : TreeSink a} {A B : Type 0} → Act x A → Act x B → Act x B
(m >> next) b = resume (λ v. next) (m b)

module _ {a : Atoms} {x : TreeSink a} where
  abbrev pub pure : {A : Type 0} → A → Act x A
  pure v b = ok (v, b)

  abbrev pub with_state : {A : Type 0} → TreeBuilder a x → Checked A → Checked (A × TreeBuilder a x)
  with_state b panic = panic
  with_state b (ok v) = ok (v, b)

  -- A method that only reads.
  abbrev pub ask : {A : Type 0} → (TreeBuilder a x → Checked A) → Act x A
  ask f b = with_state b (f b)

  abbrev pub modify : (TreeBuilder a x → TreeBuilder a x) → Act x (Unit {0})
  modify f b = ok (tt, f b)

  -- A call of the sink that may fail.
  abbrev pub on_sink : {A : Type 0} → (x.Sink → Checked (A × x.Sink)) → Act x A
  on_sink f b = elim (f b.sink) [ panic ↦ panic | ok r ↦ ok (r.0, record b { sink = r.1 }) ]

  abbrev pub on_sink_only : (x.Sink → Checked x.Sink) → Act x (Unit {0})
  on_sink_only f b = elim (f b.sink) [ panic ↦ panic | ok s ↦ ok (tt, record b { sink = s }) ]

  abbrev pub assert : Bool → Act x (Unit {0})
  assert t b = if t then ok (tt, b) else panic

  -- `self.sink.parse_error(format_if!(self.opts.exact_errors, ...))`.
  unfoldable pub report : Text → TreeError a.Atom → Act x (Unit {0})
  report msg full b =
      let error = if b.opts.exact_errors then full else static msg in
      ok (tt, record b { sink = x.parse_error b.sink error })

  unfoldable pub new : x.Sink → TreeBuilderOpts → TreeBuilder a x
  new sink opts =
      let (doc_handle, sink') = x.get_document sink in
      record {
        opts = opts;
        sink = sink';
        mode = initial;
        orig_mode = none;
        template_modes = [];
        pending_table_text = [];
        quirks_mode = no_quirks;
        doc_handle = doc_handle;
        open_elems = [];
        active_formatting = [];
        head_elem = none;
        form_elem = none;
        next_tokenizer_state = none;
        frameset_ok = true;
        ignore_lf = false;
        foster_parenting = false;
      }
