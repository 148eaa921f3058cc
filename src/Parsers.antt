-- ===== src/Parsers.antt =====
-- The parse functions of src/parsers/, each over `run`, which stands for the calls of h_do_parse.
-- A returned NULL is `none`, and an HParseResult is its address among the results of the state.
pub mod Primitive
pub mod Sequence
pub mod Many
pub mod Permutation
pub mod Compare
pub mod Values
mod Tests
