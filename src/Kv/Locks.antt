-- ===== src/Kv/Locks.antt =====
-- kv.rs: the locks with fencing tokens, the tables `kv_locks` and `kv_meta`, and the request
-- handlers of controller/kv_store.rs. A transaction is one step on the tables. The sum of SQLite
-- leaves its integers at 2 ^ 63, where the strict column refuses the value.
mod Table
mod Requests
unfoldable pub use Table.*
unfoldable pub use Requests.*
pub mod Fencing
pub mod Leases
pub mod Outcome
