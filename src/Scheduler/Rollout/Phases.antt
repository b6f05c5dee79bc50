-- ===== src/Scheduler/Rollout/Phases.antt =====
-- scheduler.rs: the phases of `reconcile_service`, in the order in which it runs them.
use mathlib.Core.List.{reverse}
use swarmlite.Base.{
  ℕ, zero, suc, ◌+◌, ◌-◌, min, Bool, true, false, none, some, List, [], ◌∷◌, ◌&&◌, ◌||◌, not,
  if◌then◌else◌, ltb, ◌==◌, filter, any, all, count, length, is_some, is_some_and, Str, str_eq,
  str_lt,
}
use swarmlite.Base.Map.{get, insert, values}
use swarmlite.Base.Sort.{sort_by}
use swarmlite.Cluster.{
  is_running, is_draining, is_healthy, is_failed_or_lost, TaskRecord, ServiceRecord, ClusterState,
}
use swarmlite.Scheduler.Constraints.{matches_constraints}
use swarmlite.Scheduler.Ports.{contains}
use swarmlite.Scheduler.Placement.{schedule_task}
use swarmlite.Scheduler.Rollout.Retire.{retire_task, retire_surplus, service_task_ids}

-- A task of the active revision, wanted on a node that no longer matches the constraints.
unfoldable pub violates : ClusterState → ServiceRecord → TaskRecord → Bool
violates state service task =
    (task.revision == service.revision)
    && (is_running task.desired || is_draining task.desired)
    && is_some_and (get state.nodes task.node_id)
        (λ node. not (matches_constraints node service.spec.constraints))

unfoldable pub retire_violating : ClusterState → ServiceRecord → List Str → ClusterState × Bool
retire_violating state service [] = (state, false)
retire_violating state service (id ∷ ids) =
    let (state', now) =
      (if is_some_and (get state.tasks id) (violates state service)
        then retire_task state id service
        else (state, false)) in
    let (state'', later) = retire_violating state' service ids in (state'', now || later)

-- Running tasks on live nodes, of the active revision or of an older one.
unfoldable pub runs_current : ServiceRecord → List Str → TaskRecord → Bool
runs_current service live_nodes task =
    (task.revision == service.revision)
    && is_running task.desired
    && contains live_nodes task.node_id

unfoldable pub runs_old : ServiceRecord → List Str → TaskRecord → Bool
runs_old service live_nodes task =
    not (task.revision == service.revision)
    && is_running task.desired
    && contains live_nodes task.node_id

-- The ids whose task passes the test, sorted, back to front.
unfoldable pub select : ClusterState → (TaskRecord → Bool) → List Str → List Str
select state p ids =
    reverse (sort_by str_lt (filter (λ id. is_some_and (get state.tasks id) p) ids))

-- A task that serves: healthy, with all of its ports published.
unfoldable pub is_ready : TaskRecord → Bool
is_ready task = is_healthy task.observed && all (λ port. is_some port.published) task.ports

unfoldable pub healthy_count : ClusterState → List Str → ℕ
healthy_count state ids = count (λ id. is_some_and (get state.tasks id) is_ready) ids

-- `retire_task(vec.remove(0))`, if there is a first element.
unfoldable pub retire_first : ClusterState → ServiceRecord → List Str → ClusterState × Bool
retire_first state service [] = (state, false)
retire_first state service (id ∷ ids) = retire_task state id service

-- The stop-first step retires the first of the old tasks.
unfoldable pub stop_first : ClusterState → ServiceRecord → ℕ → List Str → ClusterState × Bool
stop_first state service current old =
    if (service.spec.max_surge == 0) && ltb current service.spec.replicas
    then retire_first state service (reverse old)
    else (state, false)

-- From the two vectors on: scale down, retire surplus old tasks, stop first.
unfoldable pub make_room :
    ClusterState → ServiceRecord → (current old : List Str) → ClusterState × Bool
make_room state service current old =
    let scaled = retire_surplus service.spec.replicas state service current in
    let keep = service.spec.replicas - healthy_count scaled.state scaled.left in
    let trimmed = retire_surplus keep scaled.state service old in
    let (freed, stopped) = stop_first trimmed.state service (length scaled.left) trimmed.left in
    (freed, scaled.changed || trimmed.changed || stopped)

abbrev pub occupying : ServiceRecord → List Str → TaskRecord → Bool
occupying service live_nodes task =
    str_eq task.service_id service.id
    && contains live_nodes task.node_id
    && not (is_failed_or_lost task.observed)

abbrev pub desired_current : ServiceRecord → List Str → TaskRecord → Bool
desired_current service live_nodes task =
    str_eq task.service_id service.id && runs_current service live_nodes task

abbrev pub desired_old : ServiceRecord → List Str → TaskRecord → Bool
desired_old service live_nodes task =
    str_eq task.service_id service.id && runs_old service live_nodes task

unfoldable pub max_total : ClusterState → ServiceRecord → List Str → ℕ
max_total state service live_nodes =
    if any (desired_old service live_nodes) (values state.tasks)
    then service.spec.replicas + service.spec.max_surge
    else service.spec.replicas

unfoldable pub can_create : ClusterState → ServiceRecord → List Str → ℕ
can_create state service live_nodes =
    max_total state service live_nodes - count (occupying service live_nodes) (values state.tasks)

unfoldable pub needed : ClusterState → ServiceRecord → List Str → ℕ
needed state service live_nodes =
    service.spec.replicas - count (desired_current service live_nodes) (values state.tasks)

abbrev pub add_task : ClusterState → TaskRecord → ClusterState
add_task state task = record state { tasks = insert task.id task state.tasks }

module _ (new_v4 : ClusterState → Str) where
  -- `for _ in 0..n`: it ends early when no task can be scheduled.
  unfoldable pub create : ℕ → ClusterState → ServiceRecord → List Str → ClusterState × Bool
  create zero state service live_nodes = (state, false)
  create (suc n) state service live_nodes = elim (schedule_task new_v4 state service live_nodes) [
    | none ↦ (state, false)
    | some task ↦ ((create n (add_task state task) service live_nodes).0, true)
  ]

  -- The last phase: fill the slots that the rollout leaves free.
  unfoldable pub fill : ClusterState → ServiceRecord → List Str → ClusterState × Bool
  fill state service live_nodes =
      create (min (needed state service live_nodes) (can_create state service live_nodes)) state
        service live_nodes

  unfoldable pub reconcile_service : ClusterState → ServiceRecord → List Str → ClusterState × Bool
  reconcile_service state service live_nodes =
      let ids = service_task_ids state service in
      let (kept, retired) = retire_violating state service ids in
      let (freed, rolled) =
        make_room kept service (select kept (runs_current service live_nodes) ids)
          (select kept (runs_old service live_nodes) ids) in
      let (filled, created) = fill freed service live_nodes in
      (filled, retired || rolled || created)
