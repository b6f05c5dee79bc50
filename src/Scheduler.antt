-- ===== src/Scheduler.antt =====
-- The scheduler, crates/swarmlite-controller/src/scheduler.rs: `Constraints`, `Ports` and
-- `Placement` choose a node, ports
-- and a slot for a new task, `Rollout` reconciles one service, `Drain` finishes drains and
-- `Reconcile` is the whole pass.
pub mod Constraints
pub mod Ports
pub mod Placement
pub mod Rollout
pub mod Drain
pub mod Reconcile
pub mod Samples
mod Tests
