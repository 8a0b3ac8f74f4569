-- ===== src/Text.antt =====
-- JavaScript strings: sequences of UTF-16 code units, and the operations of the standard library
-- that the client uses.
mod Defs
mod Equality
mod Search
mod Split
mod Decimal
unfoldable pub use Defs.*
unfoldable pub use Equality.*
unfoldable pub use Search.*
unfoldable pub use Split.*
unfoldable pub use Decimal.*
