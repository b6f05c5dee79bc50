-- ===== src/Kv/Keys.antt =====
-- kv.rs: validation of keys, component prefixes, and the key range that `keys_at` asks SQLite for.
-- A table is a map in the order of its keys; SQLite's BINARY collation is the order of `str_lt`.
mod Range
mod Paths
unfoldable pub use Range.*
unfoldable pub use Paths.*
pub mod Descendants
