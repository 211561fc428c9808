-- ===== src/Stage1.antt =====
-- The first stage of the compiler, librxvm/stage1.c.
pub mod Context
pub mod Operator
pub mod Main
pub mod Charc
pub mod Whole
pub mod Rep
pub mod StepHalts
pub mod Halts
pub mod Plain
pub mod Store
pub mod Keeps
pub mod Compiles
pub mod Tokens
pub mod Closes
pub mod Rounds
pub mod Ends
pub mod Returns
