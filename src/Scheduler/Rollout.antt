-- ===== src/Scheduler/Rollout.antt =====
-- scheduler.rs: `retire_task`, `stop_all_service_tasks` and the phases of `reconcile_service`. A
-- vector that the source pops from its end is kept back to front, so `pop` takes the head.
mod Retire
mod Phases
pub mod Listed
pub mod Keeps
pub mod Bounds
pub mod Availability
pub mod Select
unfoldable pub use Retire.*
unfoldable pub use Phases.*
