-- ===== src/Text.antt =====
-- kernel/common: characters, strings and the conversion of strings to numbers.
pub mod Ctype
pub mod Strings
pub mod Numbers
mod Tests
