-- ===== src/Text.antt =====
-- Texts as the library handles them: their bytes, which are the characters of an ASCII text.
pub mod Decimal
pub mod Words
pub mod Hex
pub mod Regex
pub mod Search
pub mod Path
