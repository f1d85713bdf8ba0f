-- ===== src/Text.antt =====
-- Rust's `str` and `String`: a text is the list of its code points. The operations are those of the
-- standard library that the sources call, with `len` counting bytes of UTF-8 as Rust's does.
mod Chars
mod Search
pub mod Utf8
unfoldable pub use Chars.*
unfoldable pub use Search.*
