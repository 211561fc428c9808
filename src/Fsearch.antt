-- ===== src/Fsearch.antt =====
-- Searching a file: `rxvm_fsearch` of librxvm/rxvm.c with the functions that it uses. Reader, Seek and
-- Run are the code.
pub mod Reader
pub mod Seek
pub mod Run
pub mod Feeds
pub mod Literals
pub mod Machine
pub mod Lines
pub mod Partial
