-- ===== src/Kv/Store.antt =====
-- kv.rs: the objects of the store, the table `kv_objects`. SQLite's `substr` and `length` count
-- characters; keys have no NUL character, where `length` would stop. `STANDARD.encode` of the
-- package base64 is a parameter of `get_object`.
mod Entries
unfoldable pub use Entries.*
pub mod Deleted
