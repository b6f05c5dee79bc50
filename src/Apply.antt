-- ===== src/Apply.antt =====
-- crates/swarmlite-controller/src/controller/deployment.rs: how a deployment starts, the part of
-- `apply_guarded` on the cluster state, and `retry_stack_deployment`.
mod Plan
mod Services
mod History
mod Guards
mod Start
mod Retry
unfoldable pub use Plan.*
unfoldable pub use Services.*
unfoldable pub use History.*
unfoldable pub use Guards.*
unfoldable pub use Start.*
unfoldable pub use Retry.*
pub mod Revisions
pub mod Requested
pub mod Bounds
pub mod Ownership
pub mod Retried
mod Tests
