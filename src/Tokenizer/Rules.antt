-- ===== src/Tokenizer/Rules.antt =====
-- src/tokenizer/mod.rs: the rules of `step`, one for each state, in the words of the macro `go!`.
-- A rule takes the character, or the result of `pop_except_from`, that its state has read.
pub mod Content
pub mod Script
pub mod Tags
pub mod Comments
pub mod Doctypes
pub mod End
