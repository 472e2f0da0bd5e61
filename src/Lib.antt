-- ===== src/Lib.antt =====
-- Verification of html5ever: the tokenizer, parts of the tree builder, a document tree, and the
-- serializer.
--
-- The program. A caller feeds strings to the tokenizer (src/tokenizer/mod.rs), which appends them to
-- a queue of buffers (src/tokenizer/buffer_queue.rs) and runs a state machine until the input is used
-- up. A state reads a character, a run of characters outside a small set
-- (src/util/smallcharset.rs) or a keyword from the queue, collects tags, comments and doctypes in the
-- fields of the tokenizer and hands tokens to a sink. A state that meets '&' starts a character
-- reference tokenizer (src/tokenizer/char_ref), which runs until it has the characters of the
-- reference and may put characters back in front of the queue. `end` finishes an open reference, reads
-- what is left, and acts at the end of the input by the state. The tree builder (src/tree_builder) is
-- a sink for tokens: it keeps a stack of open elements and a list of active formatting elements, and
-- calls a sink for trees (the trait TreeSink) to make nodes and to put them in place. One such sink is
-- the owned document tree (src/sink/owned_dom.rs). A finished tree is written by the serializer
-- (src/serialize/mod.rs).
--
-- The files.
--   Prelude          shared names, tests on numbers, lists, code that may panic, bits.
--   Util/Utf8        the string operations of the language by byte position; a string is the list of
--                    its characters, and the bytes are its encoding.
--   Util/Str         src/util/str.rs: the Ascii type, the table of lowercase bytes, the letters.
--   Util/SmallCharSet  src/util/smallcharset.rs.
--   BufferQueue      src/tokenizer/buffer_queue.rs, one function per method (`next_char` is `next`).
--                    View is the sequence of characters to be read, Laws and Eat are about the
--                    methods in terms of it.
--   Tokenizer/States, Interface   src/tokenizer/states.rs and interface.rs.
--   Tokenizer/Machine   the record of the tokenizer and the methods that read input.
--   Tokenizer/Actions   the commands of the macros `shorthand!` and `go!` as data (`Cmd`, `Exit`, `Go`)
--                    with what they do to the tokenizer (`shorthand`, `run_go`).
--   Tokenizer/Rules  the rule of each state of `step` as a function from what was read to a `Go`,
--                    and `eof_step`.
--   Tokenizer/CharRef   src/tokenizer/char_ref/mod.rs: Numbers and Named are the states, Numeric is the
--                    value of a number, Values is about it.
--   Tokenizer/Dispatch   the match of `step` on the state.
--   Tokenizer/Step   `step`, `run`, `feed` and `end`.
--   Tokenizer/Safety the invariant of the tokenizer and what keeps it. Tokens has the invariant and the
--                    tokens that a sink may be given; Commands, Steady and Moves are about `run_go`;
--                    Reading, Runs, Peeking and Fresh about the reading methods; Checks, Rules and
--                    Readers about the rules, as tests that are evaluated; Round, Keywords and Loop
--                    about the loop of a state; Ending about the loop of `end`; Feeding and
--                    References about `feed` and `process_char_ref`.
--   NamedEntities    macros/src/named_entities.rs, `build_map`: Entries and Prefixes are about its loops,
--                    Built about its table.
--   Names            the names of elements and attributes, and the matches of the macros on them.
--   Serialize        src/serialize/mod.rs. Writes is what a method writes, Escape is about
--                    `write_escaped`, Markup the text of tags, Tags is about each method.
--   Sink/Common, Store, Build, Tree   src/sink/common.rs and owned_dom.rs while the document is built:
--                    Store has the nodes and the functions of the file (`push_child` is the free
--                    function `append`), Build the methods of TreeSink, Tree the sink as a whole.
--                    Links, Rewired, Family, Moves, Before, Texts and Append are about parents and
--                    children.
--   Sink/Owned       src/sink/owned_dom.rs: the finished tree and its serialization; Markup is the text
--                    of a tree.
--   TreeBuilder/Interface, Types, TagSets, Data   the files of src/tree_builder with these names;
--                    Quirks is about the tables of data.rs.
--   TreeBuilder/Builder   the record of src/tree_builder/mod.rs.
--   TreeBuilder/Stack, Closing, Insert, Formatting   src/tree_builder/actions.rs: Stack has the loops
--                    over the stack of open elements, Closing the methods that look at it and pop it,
--                    Insert those that make nodes, Formatting the active formatting elements. Scope,
--                    Paragraphs and Ark are about them.
--   Tests            a recording sink, concrete inputs, and the theorems at these inputs.
--
-- State and errors. A method that changes `self` returns the new record. Code that may fail at run time
-- (an index or a slice out of bounds, `expect`, `fail!`) returns `Checked`, and `panic` is that it
-- fails. The arithmetic of `u32` and of the bits of a set is written out modulo a power of two.
-- The stacks and the list of formatting elements, vectors in the source, have their last element first.
-- A pointer of the document tree is an index into the vector of all nodes, and to follow the null
-- pointer is `panic`. A write may fail with an error of the writer, which is a value (`IoResult`).
-- Positions and lengths do not wrap: they are bounded by the memory that the input takes.
--
-- Loops. The loop of a state, `run`, the loop of `end` and `end_of_file` take fuel, and answer none when
-- it runs out. For the loop of a state one more than the number of pending characters is enough, for
-- the loop of `end` three. The other loops are recursions on the data.
--
-- Parameters (`Externals`). The sink with its two methods, the interned names of the crate
-- string_cache with the law that a name is read back as it was made, and the table of named references,
-- which the build makes from data/entities.json.
--
-- Other parameters. The type of JSON values with the decoder of an entry (`build_map`), the writer of
-- the serializer (`Output`), the interned names (`Atoms`), the sink of the tree builder (`TreeSink`,
-- which `owned_sink` fills), and the sorting of attributes by the standard library in
-- `equiv_modulo_attr_order`.
--
-- Not modelled. The macro around `build_map` (`expand`). Of the tree builder the rules of the
-- insertion modes (src/tree_builder/rules.rs), the dispatch on tokens, and the two actions that call
-- the rules. Of the document tree `get_result`, which reinterprets the memory of the nodes. The
-- reference counted tree (src/sink/rcdom.rs), the driver, the C interface and the other compiler plugin; of
-- the tokenizer the profiling output and the traces.
mod Prelude
pub mod Util
pub mod BufferQueue
pub mod Tokenizer
pub mod TreeBuilder
mod Tests
pub mod Names
pub mod Serialize
pub mod Sink
pub mod NamedEntities
