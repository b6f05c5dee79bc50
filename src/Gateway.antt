-- ===== src/Gateway.antt =====
-- The gateway's view of the cluster: the keys of upstreams in crates/swarmlite-core/src/model.rs,
-- and the routes of the stacks in crates/swarmlite-core/src/gateway.rs.
pub mod PortKey
pub mod Routes
mod Tests
