-- ===== src/Scheduler/Reconcile.antt =====
-- scheduler.rs: `reconcile`, one pass over the cluster: the jobs, the tasks that are lost, and each
-- service. `now` is the clock of the call, and `occurrence` the search for the next time of a cron
-- schedule (packages croner and chrono).
pub mod Live
use mathlib.Core.Option
use swarmlite.Base.{
  ℕ, Bool, true, false, Option, none, some, List, [], ◌∷◌, ◌&&◌, ◌||◌, not, if◌then◌else◌, ◌==◌,
  any, is_some, Str, str_eq,
}
use swarmlite.Base.Map.{BTreeMap, get, map_values, values, keys}
use swarmlite.Cluster.{
  is_running, is_draining, is_failed_or_lost, active, is_restart, restarting_task,
  ServiceOperationRecord, DesiredTaskState, ObservedTaskState, TaskRecord, ServiceRecord,
  ClusterState,
}
use swarmlite.Jobs.{reconcile_jobs}
use swarmlite.Scheduler.Ports.{contains}
use swarmlite.Scheduler.Rollout.{stop_all_service_tasks, reconcile_service}

-- A restart operation owns the task while its node is alive.
unfoldable pub is_restarting : BTreeMap ServiceOperationRecord → List Str → TaskRecord → Bool
is_restarting operations live task =
    contains live task.node_id && any (λ op. restarting_task op task.id) (values operations)

unfoldable pub is_wanted : TaskRecord → Bool
is_wanted task = is_running task.desired || is_draining task.desired

unfoldable pub stops_lost : BTreeMap ServiceOperationRecord → List Str → TaskRecord → Bool
stops_lost operations live task =
    not (is_some task.job)
    && not (is_restarting operations live task)
    && is_wanted task
    && (not (contains live task.node_id) || is_failed_or_lost task.observed)

unfoldable pub stop_lost : BTreeMap ServiceOperationRecord → List Str → TaskRecord → TaskRecord
stop_lost operations live task =
    if stops_lost operations live task
    then record task {
      desired = DesiredTaskState.stopped;
      observed = (if contains live task.node_id then task.observed else ObservedTaskState.lost);
    }
    else task

-- A restart operation is at work on the service.
unfoldable pub is_being_restarted : ClusterState → ServiceRecord → Bool
is_being_restarted state service =
    any
      (λ op. str_eq op.view.service service.id && active op.view.status && is_restart op.view.kind)
      (values state.service_operations)

module _ (new_v4 : ClusterState → Str) where
  -- The body of the loop over the services.
  unfoldable pub reconcile_one : ClusterState → ServiceRecord → List Str → ClusterState × Bool
  reconcile_one state service live =
      if is_some service.spec.job || is_being_restarted state service
      then (state, false)
      else if service.deleted || service.spec.replicas == 0
      then stop_all_service_tasks state service
      else reconcile_service new_v4 state service live

  unfoldable pub reconcile_all : ClusterState → List Str → List Str → ClusterState × Bool
  reconcile_all state live [] = (state, false)
  reconcile_all state live (id ∷ ids) = elim (get state.services id) [
    | none ↦ reconcile_all state live ids
    | some service ↦
        let (next, changed) = reconcile_one state service live in
        let (rest, later) = reconcile_all next live ids in (rest, changed || later)
  ]

module _ (new_v4 : ClusterState → Str) (occurrence : Str → Str → ℕ → Option ℕ) where
  unfoldable pub reconcile : ClusterState → List Str → ℕ → ClusterState × Bool
  reconcile state live now =
      let (ran, jobs_changed) = reconcile_jobs new_v4 occurrence state live now in
      let stopped = record ran {
        tasks = map_values (stop_lost ran.service_operations live) ran.tasks;
      } in
      let lost = any (stops_lost ran.service_operations live) (values ran.tasks) in
      let (done, changed) = reconcile_all new_v4 stopped live (keys stopped.services) in
      (done, jobs_changed || lost || changed)
