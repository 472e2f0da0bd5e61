-- ===== src/TreeBuilder.antt =====
-- src/tree_builder: the tree builder.
pub mod Interface
pub mod Data
pub mod Quirks
pub mod TagSets
pub mod Types
pub mod Builder
pub mod Stack
pub mod Closing
pub mod Insert
pub mod Formatting
pub mod Scope
pub mod Paragraphs
pub mod Ark
