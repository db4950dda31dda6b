-- ===== src/Text.antt =====
-- Rust's `String` and `&str` (used in every file of src/): a list of code points. `codes` writes
-- a literal, and the UTF-8 length and bytes are computed from the code points.
pub mod Decimal
pub mod Utf8
pub mod Affixes
mod Ordered
mod Search
unfoldable pub use Ordered.*
unfoldable pub use Search.*
