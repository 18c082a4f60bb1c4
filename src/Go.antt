-- ===== src/Go.antt =====
-- What the program uses of Go's standard library for text: `strings`, `strconv`, `path/filepath`.
-- Text is a list of bytes. Case is that of ASCII, and so is white space but for Runes, which has that
-- of Unicode.
pub mod Strings
pub mod Runes
pub mod Replace
pub mod Strconv
pub mod Scan
pub mod FilePath
