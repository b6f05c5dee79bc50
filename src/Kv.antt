-- ===== src/Kv.antt =====
-- The key-value store of the controller, crates/swarmlite-controller/src/kv.rs, and its request
-- handlers in controller/kv_store.rs. `Keys` has the key syntax and the range query, `Store` the
-- objects, `Locks` the leases with fencing tokens, and `Objects` the handlers for objects.
pub mod Keys
pub mod Store
pub mod Locks
pub mod Objects
mod Tests
