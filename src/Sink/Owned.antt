-- ===== src/Sink/Owned.antt =====
-- src/sink/owned_dom.rs: the finished tree, in which every node owns its children, and how it is
-- serialized.
pub mod Markup
use html.Prelude.{Bool, true, false, List, [], ◌∷◌, if◌then◌else◌, Checked, panic}
use html.Names.{Atoms}
use html.Serialize.{
  Output, IoResult, SerializeOpts, Serializer, Method, done, ◌>>◌, new, start_elem, end_elem,
  write_text, write_comment, write_doctype,
}
use html.Sink.Common.{NodeEnum, document, doctype, text, comment, element}

-- `Nodes` is the vector of the children.
mutual
  pub data Node (Atom : Type 0) : Type 0 where
    node : NodeEnum Atom → Nodes Atom → Node Atom

  pub data Nodes (Atom : Type 0) : Type 0 where
    no_nodes : Nodes Atom
    and_node : Node Atom → Nodes Atom → Nodes Atom

module _ (o : Output) (a : Atoms) where
  -- `Serializable for Node`, by the kind of the node, with what the loop over the children does.
  unfoldable pub serialize_as : NodeEnum a.Atom → Bool → Method o a → Method o a
  serialize_as (element name attrs) incl_self children =
      (if incl_self then start_elem o a name attrs else done)
      >> children
      >> (if incl_self then end_elem o a name else done)
  serialize_as document false children = children
  serialize_as kind false children = done
  serialize_as (doctype name public_id system_id) true children = write_doctype o a name
  serialize_as (text t) true children = write_text o a t
  serialize_as (comment t) true children = write_comment o a t
  serialize_as document true children = λ s. panic

  unfoldable mutual
    unfolding serialize_as

    pub serialize_node : Node a.Atom → Bool → Method o a
    serialize_node (node kind children) incl_self =
        serialize_as kind incl_self (serialize_nodes children)

    pub serialize_nodes : Nodes a.Atom → Method o a
    serialize_nodes no_nodes = done
    serialize_nodes (and_node child rest) = serialize_node child true >> serialize_nodes rest

  -- The function `serialize` of src/serialize/mod.rs, on such a tree.
  unfoldable pub serialize :
      o.Writer → Node a.Atom → SerializeOpts → Checked (IoResult o.IoError × Serializer o a)
  unfolding serialize_node new
  serialize writer root opts = serialize_node root false (new o a writer opts)
