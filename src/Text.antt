-- ===== src/Text.antt =====
-- Go's strings as lists of bytes, and what the program uses of package strings.
mod Order
mod Trim
mod Decimal
pub use Order.{
  Text, text, eq_of_text_eq, text_eq_refl, text_eq_iff, text_ne, text_lt-IsOrder, text_lt_total,
  text_eq_comm, text_total,
}
unfoldable pub use Order.{text_eq, text_lt}
pub use Trim.{drop, prefix-all, IsGraph, trim_graph, cut-append}
unfoldable pub use Trim.{prefix, trim, cut, has_byte, has_prefix, lower, split, join}
unfoldable pub use Decimal.{itoa, dtoi}
pub use Decimal.{dtoi-itoa, itoa-IsDigit}
