-- ===== src/Tests.antt =====
-- Runs of the model on small inputs, and the theorems at concrete ones.
mod Grammars
mod Classes
mod Lexing
mod Conversion
mod Names
mod Ports
mod Checker
mod Embedding
mod Toml
mod Vale
