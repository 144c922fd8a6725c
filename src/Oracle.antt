-- ===== src/Oracle.antt =====
-- The generated oracle, package oracle of coq/goextract/oracle/oracle_gen.go.
pub mod Prims
pub mod Loops
pub mod TableFn
pub mod Lists
pub mod Positive
pub mod Rules
pub mod Trie
pub mod Blocks
pub mod Packed
pub mod Fast
