-- ===== src/Cluster.antt =====
-- The cluster model of crates/swarmlite-core/src/model.rs and service_operations.rs and of the
-- stack types in crates/swarmlite-stack/src/lib.rs: records for the structs, data types for the
-- enums, and the small predicates on them. Timestamps are milliseconds since the epoch as
-- `unix_ms` gives them, which is never negative, so they are natural numbers.
mod Spec
mod Gateway
mod Operation
mod Task
mod State
mod Equality
pub use Spec.*
unfoldable pub use Gateway.*
unfoldable pub use Operation.*
pub use Task.*
pub use State.*
unfoldable pub use Equality.*
