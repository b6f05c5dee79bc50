-- ===== src/Deployment.antt =====
-- crates/swarmlite-controller/src/controller/deployment.rs: the progress of stack deployments.
-- The clock of a call is an argument.
mod Conditions
mod Ready
mod Refresh
mod Report
mod Images
mod Resolved
unfoldable pub use Conditions.*
unfoldable pub use Ready.*
unfoldable pub use Refresh.*
unfoldable pub use Report.*
unfoldable pub use Images.*
unfoldable pub use Resolved.*
pub mod Open
pub mod Moves
pub mod Moved
pub mod Refreshed
pub mod Reported
pub mod Pictured
pub mod Identity
pub mod Steps
pub mod Judged
pub mod Replaced
mod Tests
