-- ===== src/Text.antt =====
-- JavaScript strings as sequences of code units, with the string methods that the program calls.
-- `toLowerCase` is the one on ASCII: addresses, hashes, identifiers and the error messages that the
-- program searches hold no other letter.
pub mod Hex
pub mod Assoc
pub mod Decimal
pub mod Parts
mod Base
pub use Base.{Text, codes, text_eq_iff, text_eq_refl, text_eq-false, to_lower_case_idem}
unfoldable pub use Base.{
  text_eq, to_lower_case, starts_with, includes, same_ignoring_case, lower_unit,
}
