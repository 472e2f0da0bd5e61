-- ===== src/Tokenizer.antt =====
-- src/tokenizer: the HTML tokenizer.
pub mod States
pub mod Interface
pub mod Machine
pub mod Actions
pub mod Rules
pub mod CharRef
pub mod Dispatch
pub mod Step
pub mod Safety
