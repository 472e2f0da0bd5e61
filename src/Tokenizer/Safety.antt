-- ===== src/Tokenizer/Safety.antt =====
-- The safety of the tokenizer: the operations of its state machine never panic, and the sink sees
-- only well-formed tokens.
pub mod Tokens
pub mod Commands
pub mod Reading
pub mod Runs
pub mod Checks
pub mod Rules
pub mod Steady
pub mod Moves
pub mod Readers
pub mod Fresh
pub mod Round
pub mod Keywords
pub mod Loop
pub mod References
pub mod Feeding
pub mod Peeking
pub mod Ending
