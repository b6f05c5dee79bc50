-- ===== src/Deployment/Report.antt =====
-- deployment.rs: `apply_task_result` and `apply_unclaimed_task_result`, what a node reports of its
-- work on one task.
use mathlib.Core.Option
use swarmlite.Base.{
  ℕ, Bool, true, false, Option, none, some, [], ◌∷◌, ◌++◌, ◌&&◌, ◌||◌, not, if◌then◌else◌, ◌==◌,
  any, is_some, is_none, is_some_and, Str, codes, str_eq,
}
use swarmlite.Base.Map.{get, update}
use swarmlite.Cluster.{
  StackDeploymentStatus, is_terminal, is_active, StackDeploymentConditionKind, StackDeploymentError,
  StackDeploymentRecord, ObservedTaskState, TaskReconcilePhase, TaskReconcileError, TaskRecord,
  ClusterState,
}
use swarmlite.Deployment.Conditions.{
  set_deployment_condition, deployment_error_requires_user, with_deployment, deployment_of,
}

pub record TaskReconcileReport : Type 0 where
  pub task_id : Str
  pub desired_generation : ℕ
  pub applied_generation : Option ℕ
  pub phase : TaskReconcilePhase
  pub error : Option Str

-- The equality that the source derives.
unfoldable pub phase_number : TaskReconcilePhase → ℕ
phase_number TaskReconcilePhase.inspect = 0
phase_number TaskReconcilePhase.config = 1
phase_number TaskReconcilePhase.pull = 2
phase_number TaskReconcilePhase.create = 3
phase_number TaskReconcilePhase.replace = 4
phase_number TaskReconcilePhase.start = 5
phase_number TaskReconcilePhase.stop = 6
phase_number TaskReconcilePhase.remove = 7
phase_number TaskReconcilePhase.verify = 8

unfoldable pub same_phase : TaskReconcilePhase → TaskReconcilePhase → Bool
same_phase a b = phase_number a == phase_number b

unfoldable pub same_error : StackDeploymentError → StackDeploymentError → Bool
same_error a b =
    str_eq a.task_id b.task_id
    && str_eq a.service b.service
    && str_eq a.node_id b.node_id
    && same_phase a.phase b.phase
    && str_eq a.message b.message

unfoldable pub same_generation : Option ℕ → Option ℕ → Bool
same_generation none none = true
same_generation (some a) (some b) = a == b
same_generation _ _ = false

unfoldable pub same_reconcile_error : Option TaskReconcileError → Option TaskReconcileError → Bool
same_reconcile_error none none = true
same_reconcile_error (some a) (some b) = same_phase a.phase b.phase && str_eq a.message b.message
same_reconcile_error _ _ = false

-- The report is of another generation, or its parts disagree.
unfoldable pub is_refused : TaskReconcileReport → StackDeploymentRecord → Bool
is_refused report deployment =
    not (report.desired_generation == deployment.generation)
    || is_some_and report.applied_generation (λ g. not (g == report.desired_generation))
    || (if is_none report.error
        then not (is_some report.applied_generation)
        else is_some report.applied_generation)

-- `errors.push` unless it is there.
unfoldable pub push_error : StackDeploymentError → StackDeploymentRecord → StackDeploymentRecord
push_error error deployment =
    if any (same_error error) deployment.errors
    then deployment
    else record deployment { errors = deployment.errors ++ error ∷ [] }

-- An active deployment is blocked if the user has to act, and has failed otherwise.
unfoldable pub record_error :
    (now_unix_ms : ℕ)
    → (reason : Str) → StackDeploymentError
    → StackDeploymentRecord
    → StackDeploymentRecord
record_error now_unix_ms reason error deployment =
    let pushed = push_error error deployment in
    if is_active deployment.status
    then if deployment_error_requires_user error.message
      then record (set_deployment_condition pushed StackDeploymentConditionKind.user_action_required
          now_unix_ms reason error.message) {
            status = StackDeploymentStatus.blocked;
            finished_at_unix_ms = none;
          }
      else record pushed {
        status = StackDeploymentStatus.failed;
        finished_at_unix_ms = some now_unix_ms;
      }
    else pushed

unfoldable pub is_remove : TaskReconcilePhase → Bool
is_remove TaskReconcilePhase.remove = true
is_remove _ = false

unfoldable pub is_failed : ObservedTaskState → Bool
is_failed ObservedTaskState.failed = true
is_failed _ = false

unfoldable pub next_error : TaskReconcileReport → Option TaskReconcileError
next_error report =
    Option.map (λ message. record { phase = report.phase; message = message }) report.error

-- What the task keeps of the report.
unfoldable pub reported : TaskReconcileReport → TaskRecord → TaskRecord
reported report task =
    let noted : TaskRecord = record task {
      applied_generation = report.applied_generation;
      reconcile_error = next_error report;
    } in
    if is_some report.error then record noted { observed = ObservedTaskState.failed } else noted

unfoldable pub soft_changed : TaskReconcileReport → TaskRecord → Bool
soft_changed report task =
    not (same_generation task.applied_generation report.applied_generation)
    || not (same_reconcile_error task.reconcile_error (next_error report))
    || is_some report.error && not (is_failed task.observed)

-- The answers of the source: the task has changed, the deployment has changed.
abbrev pub Changed : Type 0
Changed = Bool × Bool

unfoldable pub error_of :
    TaskReconcileReport → (service node_id message : Str) → StackDeploymentError
error_of report service node_id message = record {
  task_id = report.task_id;
  service = service;
  node_id = node_id;
  phase = report.phase;
  message = message;
}

unfoldable pub apply_unclaimed_task_result :
    ClusterState
    → (node_id : Str) → TaskReconcileReport
    → (now_unix_ms : ℕ) → ClusterState × Changed
apply_unclaimed_task_result state node_id report now_unix_ms =
    let ignored : ClusterState × Changed = (state, (false, false)) in
    elim (get state.unclaimed_tasks report.task_id) [
      | none ↦ ignored
      | some task ↦
          if not (str_eq task.node_id node_id)
          then ignored
          else elim (deployment_of state task.stack) [
            | none ↦ ignored
            | some deployment ↦
                if is_refused report deployment then ignored else elim report.error [
                  | none ↦ ignored
                  | some message ↦ if is_terminal deployment.status then ignored else (
                    with_deployment state task.stack (
                        record_error now_unix_ms (codes "runtime_dependency")
                          (error_of report task.service node_id message)),
                    (false, true),
                  )
                ]
          ]
    ]

unfoldable pub apply_task_result :
    ClusterState
    → (node_id : Str) → TaskReconcileReport
    → (now_unix_ms : ℕ) → ClusterState × Changed
apply_task_result state node_id report now_unix_ms =
    let ignored : ClusterState × Changed = (state, (false, false)) in
    elim (get state.tasks report.task_id) [
      | none ↦ apply_unclaimed_task_result state node_id report now_unix_ms
      | some task ↦
          if not (str_eq task.node_id node_id)
          then ignored
          else elim (get state.services task.service_id) [
            | none ↦ ignored
            | some service ↦ elim (deployment_of state service.stack) [
              | none ↦ ignored
              | some deployment ↦
                  if is_refused report deployment
                  then ignored
                  else let noted : ClusterState = record state {
                    tasks = update report.task_id (reported report) state.tasks;
                  } in
                    let changed = soft_changed report task in
                    elim report.error [
                      | none ↦ (noted, (changed, false))
                      | some message ↦
                          if not (task.revision == service.revision) && not (is_remove report.phase)
                          then (noted, (changed, false))
                          else if is_terminal deployment.status
                          then (noted, (changed, false))
                          else (
                            with_deployment noted service.stack (
                                record_error now_unix_ms (codes "runtime_dependency")
                                  (error_of report service.name node_id message)),
                            (true, true),
                          )
                    ]
            ]
          ]
    ]
