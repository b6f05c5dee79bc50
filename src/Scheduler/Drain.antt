-- ===== src/Scheduler/Drain.antt =====
-- scheduler.rs: `finish_drains` stops the draining tasks whose deadline has passed.
pub mod Settled
use swarmlite.Base.{ℕ, Bool, ◌&&◌, if◌then◌else◌, leb, any, is_some_and}
use swarmlite.Base.Map.{map_values, values}
use swarmlite.Cluster.{DesiredTaskState, is_draining, TaskRecord, ClusterState}

unfoldable pub drain_is_over : ℕ → TaskRecord → Bool
drain_is_over now task =
    is_draining task.desired && is_some_and task.drain_until_unix_ms (λ deadline. leb deadline now)

unfoldable pub finish_drain : ℕ → TaskRecord → TaskRecord
unfolding drain_is_over
finish_drain now task =
    if drain_is_over now task then record task { desired = DesiredTaskState.stopped } else task

unfoldable pub finish_drains : ClusterState → ℕ → ClusterState × Bool
unfolding finish_drain
finish_drains state now = (
  record state { tasks = map_values (finish_drain now) state.tasks },
  any (drain_is_over now) (values state.tasks),
)
