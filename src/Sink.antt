-- ===== src/Sink.antt =====
-- src/sink: the two document trees that come with the parser.
pub mod Common
pub mod Owned
pub mod Store
pub mod Build
pub mod Links
pub mod Rewired
pub mod Family
pub mod Moves
pub mod Before
pub mod Texts
pub mod Append
pub mod Tree
