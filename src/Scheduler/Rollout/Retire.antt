-- ===== src/Scheduler/Rollout/Retire.antt =====
-- scheduler.rs: retiring the tasks of a service.
use swarmlite.Base.{
  ℕ, Bool, true, false, none, some, List, [], ◌∷◌, map, ◌&&◌, ◌||◌, if◌then◌else◌, ltb, filter,
  length, Str, str_eq,
}
use swarmlite.Base.Map.{get, update, values}
use swarmlite.Cluster.{
  DesiredTaskState, is_running, is_healthy, TaskRecord, ServiceRecord, ClusterState,
}
use swarmlite.Scheduler.Ports.{is_service_http_routed}

-- The assignments of `retire_task` to a running task.
unfoldable pub retired : Bool → TaskRecord → TaskRecord
retired routed task = record task {
  desired =
      (if routed && is_healthy task.observed
        then DesiredTaskState.draining
        else DesiredTaskState.stopped);
  drain_until_unix_ms = none;
}

abbrev pub retire_at : ClusterState → Str → ServiceRecord → ClusterState
retire_at state task_id service = record state {
  tasks = update task_id (retired (is_service_http_routed state service)) state.tasks;
}

-- The source unwraps the lookup: its callers pass the ids of tasks that they have just listed.
unfoldable pub retire_task : ClusterState → Str → ServiceRecord → ClusterState × Bool
retire_task state task_id service = elim (get state.tasks task_id) [
  | none ↦ (state, false)
  | some task ↦
      if is_running task.desired then (retire_at state task_id service, true) else (state, false)
]

unfoldable pub retire_all : ClusterState → ServiceRecord → List Str → ClusterState × Bool
retire_all state service [] = (state, false)
retire_all state service (id ∷ ids) =
    let (state', now) = retire_task state id service in
    let (state'', later) = retire_all state' service ids in (state'', now || later)

-- The ids of the tasks of a service.
unfoldable pub service_task_ids : ClusterState → ServiceRecord → List Str
service_task_ids state service =
    map (λ task. task.id) (filter (λ task. str_eq task.service_id service.id) (values state.tasks))

unfoldable pub stop_all_service_tasks : ClusterState → ServiceRecord → ClusterState × Bool
stop_all_service_tasks state service = retire_all state service (service_task_ids state service)

-- `while vec.len() > limit { if let Some(id) = vec.pop() { retire_task(id) } }`: the state, what is
-- left of the vector, and whether something changed.
pub record Surplus : Type 0 where
  pub state : ClusterState
  pub left : List Str
  pub changed : Bool

unfoldable pub retire_surplus : ℕ → ClusterState → ServiceRecord → List Str → Surplus
retire_surplus limit state service [] = record { state = state; left = []; changed = false }
retire_surplus limit state service (id ∷ ids) =
    let (state', now) = retire_task state id service in
    let rest = retire_surplus limit state' service ids in
    if ltb limit (length (id ∷ ids))
    then record { state = rest.state; left = rest.left; changed = now || rest.changed }
    else record { state = state; left = id ∷ ids; changed = false }
