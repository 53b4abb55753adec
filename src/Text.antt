-- ===== src/Text.antt =====
-- What the program uses of Go's `strconv`, `strings`, `fmt` and `net` on texts.
pub mod Digits
pub mod Decimal
pub mod Space
pub mod Hardware
pub mod Hex
pub mod Suffix
