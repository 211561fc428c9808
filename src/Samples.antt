-- ===== src/Samples.antt =====
-- Runs of the model on small inputs, and the theorems at concrete inputs.
mod Match
mod Compile
mod Code
mod Whole
mod Strings
mod Stage
mod Gen
mod Files
mod Lists
