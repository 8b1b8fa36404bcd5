-- ===== src/Utils.antt =====
-- utils/: character sets, and the parsing of numbers, names and addresses.
pub mod BitOps
pub mod Charset
pub mod Parsing
pub mod Names
mod Tests
