-- ===== src/Recovery.antt =====
-- crates/swarmlite-controller/src/controller/recovery.rs: after a controller restart the tasks that
-- nodes report are unclaimed until their stack is deployed again; then they are adopted. The hash of
-- a specification (serde_json and SHA-256) is the parameter `service_spec_hash`.
mod Adoption
mod Status
unfoldable pub use Adoption.*
unfoldable pub use Status.*
pub mod Slots
pub mod Origin
mod Tests
