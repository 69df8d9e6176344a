-- ===== src/Bytes.antt =====
-- Python's `bytes` as lists of numbers below 256: big-endian integers, tests, and decoding to text.
mod BigEndian
mod Tests
mod Utf8
unfoldable pub use BigEndian.{to_bytes, from_bytes}
pub use BigEndian.*
unfoldable pub use Tests.{bytes_eq, starts_with}
pub use Tests.{bytes_eq_refl, bytes_eq→eq, bytes_eq_iff, bytes_key, starts_with-append}
unfoldable pub use Utf8.{decode_utf8}
pub use Utf8.{Text, decode_utf8-ascii}
