-- ===== src/TreeBuilder/Insert.antt =====
-- src/tree_builder/actions.rs: the methods that make nodes and insert them, and the raw text mode.
use html.Prelude.{
  Bool, true, false, ◌&&◌, Option, none, some, List, [], ◌∷◌, if◌then◌else◌, Text, codes, ok, panic,
  expect, not,
}
use html.Tokenizer.States.{State, RawKind, raw_data}
use html.Tokenizer.Interface.{Attribute, Tag}
use html.Util.Utf8.{bytes}
use html.Util.Str.{eq_ignore_ascii_case}
use html.Names.{Atoms, no_namespace, local_in}
use html.TreeBuilder.TagSets.{TagSet, one_of}
use html.TreeBuilder.Types.{text_mode, Token, ProcessResult, done, unexpected_token}
use html.TreeBuilder.Interface.{QuirksMode, NodeOrText, append_node, append_text, TreeSink}
use html.TreeBuilder.Builder.{Act, ◌>>=◌, ◌>>◌, pure, ask, modify, on_sink, on_sink_only, report}
use html.TreeBuilder.Stack.{html_name, elem_in, last_table}
use html.TreeBuilder.Closing.{current_node, html_elem, push}

pub data PushFlag : Type 0 where
  push_it no_push : PushFlag

unfoldable pub foster_target : (a : Atoms) → TagSet a
unfolding one_of
foster_target a =
    one_of a (codes "table" ∷ codes "tbody" ∷ codes "tfoot" ∷ codes "thead" ∷ codes "tr" ∷ [])

-- The search of `is_type_hidden` for the attribute.
unfoldable pub has_hidden : (a : Atoms) → List (Attribute a.Atom) → Bool
unfolding no_namespace local_in eq_ignore_ascii_case bytes
has_hidden a [] = false
has_hidden a (at ∷ attrs) =
    let further = has_hidden a attrs in
    if no_namespace a at.name && local_in a at.name (codes "type" ∷ [])
    then eq_ignore_ascii_case (bytes at.value) (bytes (codes "hidden"))
    else further

unfoldable pub is_type_hidden : (a : Atoms) → Tag a.Atom → Bool
unfolding has_hidden
is_type_hidden a tag = has_hidden a tag.attrs

is_none : Option State → Bool
is_none none = true
is_none (some s) = false

module _ {a : Atoms} {x : TreeSink a} where
  open x use {Handle}

  -- The three places for a node.
  unfoldable pub append_to : Handle → NodeOrText Handle → Act x (Unit {0})
  append_to target child = on_sink_only (λ s. x.append s target child)

  unfoldable pub after_before : Option Handle → Option (NodeOrText Handle) → Act x (Unit {0})
  unfolding append_to
  after_before previous none = pure tt
  after_before previous (some child) = do
    target ← ask (λ b. expect previous)
    append_to target child

  unfoldable pub foster : Option (Handle × Option Handle) → NodeOrText Handle → Act x (Unit {0})
  unfolding append_to after_before html_elem
  foster none child = do target ← ask html_elem; append_to target child
  foster (some (table, previous)) child = do
    returned ← on_sink (λ s. x.append_before_sibling s table child)
    after_before previous returned

  foster_last : NodeOrText Handle → Act x (Unit {0})
  unfolding last_table foster
  foster_last child = do table ← ask (λ b. last_table x b.sink b.open_elems); foster table child

  -- `self.foster_parenting && self.elem_in(target, foster_target)`.
  unfoldable pub must_foster : Handle → Act x Bool
  unfolding elem_in foster_target
  must_foster target b =
      if b.foster_parenting
      then ask (λ b. elem_in x b.sink target (foster_target a)) b
      else ok (false, b)

  unfoldable pub insert_appropriately : NodeOrText Handle → Act x (Unit {0})
  unfolding current_node must_foster append_to foster_last
  insert_appropriately child = do
    target ← ask current_node
    fostered ← must_foster target
    if not fostered then append_to target child else foster_last child

  unfoldable pub append_text_action : Text → Act x (ProcessResult a.Atom)
  unfolding insert_appropriately
  append_text_action t = insert_appropriately (append_text t) >> pure done

  -- `self.sink.create_comment(text)`.
  unfoldable pub create_comment : Text → Act x Handle
  create_comment t = on_sink (λ s. ok (x.create_comment s t))

  unfoldable pub append_comment : Text → Act x (ProcessResult a.Atom)
  unfolding create_comment insert_appropriately
  append_comment t = do
    comment ← create_comment t
    insert_appropriately (append_node comment)
    pure done

  unfoldable pub append_comment_to_doc : Text → Act x (ProcessResult a.Atom)
  unfolding create_comment append_to
  append_comment_to_doc t = do
    target ← ask (λ b. ok b.doc_handle)
    comment ← create_comment t
    append_to target (append_node comment)
    pure done

  unfoldable pub append_comment_to_html : Text → Act x (ProcessResult a.Atom)
  unfolding create_comment append_to html_elem
  append_comment_to_html t = do
    target ← ask html_elem
    comment ← create_comment t
    append_to target (append_node comment)
    pure done

  unfoldable pub create_root : List (Attribute a.Atom) → Act x (Unit {0})
  unfolding push append_to
  create_root attrs = do
    elem ← on_sink (λ s. ok (x.create_element s (html_name a (a.from_slice (codes "html"))) attrs))
    push elem
    target ← ask (λ b. ok b.doc_handle)
    append_to target (append_node elem)

  unfoldable pub push_by : PushFlag → Handle → Act x (Unit {0})
  unfolding push
  push_by push_it elem = push elem
  push_by no_push elem = pure tt

  unfoldable pub insert_element : PushFlag → a.Atom → List (Attribute a.Atom) → Act x Handle
  unfolding insert_appropriately push_by
  insert_element flag name attrs = do
    elem ← on_sink (λ s. ok (x.create_element s (html_name a name) attrs))
    insert_appropriately (append_node elem)
    push_by flag elem
    pure elem

  unfoldable pub insert_element_for : Tag a.Atom → Act x Handle
  unfolding insert_element
  insert_element_for tag = insert_element push_it tag.name tag.attrs

  unfoldable pub insert_and_pop_element_for : Tag a.Atom → Act x Handle
  unfolding insert_element
  insert_and_pop_element_for tag = insert_element no_push tag.name tag.attrs

  unfoldable pub insert_phantom : a.Atom → Act x Handle
  unfolding insert_element
  insert_phantom name = insert_element push_it name []

  unfoldable pub set_quirks_mode : QuirksMode → Act x (Unit {0})
  set_quirks_mode mode =
      modify (λ b. record b { quirks_mode = mode; sink = x.set_quirks_mode b.sink mode })

  unfoldable pub to_raw_text_mode : RawKind → Act x (Unit {0})
  unfolding is_none
  to_raw_text_mode k b =
      if is_none b.next_tokenizer_state
      then ok (
        tt,
        record b {
          next_tokenizer_state = some (raw_data k);
          orig_mode = some b.mode;
          mode = text_mode;
        },
      )
      else panic

  unfoldable pub parse_raw_data : Tag a.Atom → RawKind → Act x (Unit {0})
  unfolding insert_element_for to_raw_text_mode
  parse_raw_data tag k = insert_element_for tag >> to_raw_text_mode k

  unfoldable pub unexpected : Token a.Atom → Act x (ProcessResult a.Atom)
  unfolding report
  unexpected thing b =
      (report (codes "Unexpected token") (unexpected_token thing b.mode) >> pure done) b

  unfoldable pub stop_parsing : Act x (ProcessResult a.Atom)
  stop_parsing = pure done
