-- ===== src/Code.antt =====
-- What the code that librxvm/vmcode.c makes does when it is run.
pub mod Runs
pub mod Split
pub mod Relations
pub mod Blocks
pub mod Repeats
pub mod Choice
pub mod Counts
pub mod Operators
pub mod Generate
pub mod Accepts
pub mod Alternation
