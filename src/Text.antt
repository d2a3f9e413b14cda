-- ===== src/Text.antt =====
-- What the code uses of Go's `strings` and `unicode` packages, on strings as lists of bytes.
pub mod Trim
pub mod Utf8
pub mod Lines
pub mod Numbers
pub mod Index
pub mod Separators
