-- ===== src/Apply/Retry.antt =====
-- deployment.rs: `retry_stack_deployment`, up to the commit of the new state.
use swarmlite.Base.{
  ℕ, ◌+◌, Bool, true, false, none, some, List, [], map, ◌&&◌, not, if◌then◌else◌, ◌==◌, any,
  is_some, is_none, is_some_and, Str, str_eq,
}
use swarmlite.Base.Map.{get, map_values, values}
use swarmlite.Scheduler.Ports.{contains}
use swarmlite.Cluster.{
  StackDeploymentStatus, StackDeploymentCondition, StackDeploymentRecord, ImageResolutionStatus,
  DeploymentImageResolutionRecord, DeploymentImageResolutionNodeRecord, ServiceOperationStatus,
  ServiceOperationRecord, active, ObservedTaskState, TaskRecord, ClusterState,
}
use swarmlite.Kv.Locks.{ControllerError, Response}
use swarmlite.Deployment.{deployment_of, with_deployment}
use swarmlite.Apply.Plan.{u64_max}

-- `Stalled | Blocked | Failed`.
unfoldable pub can_be_retried : StackDeploymentStatus → Bool
can_be_retried StackDeploymentStatus.stalled = true
can_be_retried StackDeploymentStatus.blocked = true
can_be_retried StackDeploymentStatus.failed = true
can_be_retried _ = false

unfoldable pub resolved_now :
    (now_unix_ms : ℕ) → StackDeploymentCondition → StackDeploymentCondition
resolved_now now_unix_ms condition =
    if is_none condition.resolved_at_unix_ms
    then record condition { resolved_at_unix_ms = some now_unix_ms }
    else condition

unfoldable pub has_failed : ImageResolutionStatus → Bool
has_failed ImageResolutionStatus.failed = true
has_failed _ = false

unfoldable pub retried_node :
    DeploymentImageResolutionNodeRecord → DeploymentImageResolutionNodeRecord
retried_node node =
    if has_failed node.status
    then record node { status = ImageResolutionStatus.checking; error = none }
    else node

unfoldable pub retried_resolution :
    DeploymentImageResolutionRecord → DeploymentImageResolutionRecord
retried_resolution resolution = record resolution {
  status =
      (if has_failed resolution.status then ImageResolutionStatus.checking else resolution.status);
  nodes = map_values retried_node resolution.nodes;
}

unfoldable pub retried_deployment :
    (now_unix_ms : ℕ) → StackDeploymentRecord → StackDeploymentRecord
retried_deployment now_unix_ms deployment = record deployment {
  retry_revision = deployment.retry_revision + 1;
  status = StackDeploymentStatus.reconciling;
  last_progress_at_unix_ms = now_unix_ms;
  finished_at_unix_ms = none;
  errors = [];
  conditions = map (resolved_now now_unix_ms) deployment.conditions;
  image_resolutions = map_values retried_resolution deployment.image_resolutions;
}

abbrev has_operation_failed : ServiceOperationStatus → Bool
has_operation_failed ServiceOperationStatus.failed = true
has_operation_failed _ = false

unfoldable pub retried_operation :
    (stack_name : Str)
    → (generation now_unix_ms : ℕ) → ServiceOperationRecord
    → ServiceOperationRecord
retried_operation stack_name generation now_unix_ms op =
    if str_eq op.stack stack_name
      && is_some_and op.view.deployment_generation (λ g. g == generation)
      && has_operation_failed op.view.status
    then record op {
      view = record op.view {
        status = ServiceOperationStatus.running;
        error = none;
        blocked = false;
        stalled = false;
        revision = op.view.revision + 1;
      };
      finished_at_unix_ms = none;
      updated_at_unix_ms = now_unix_ms;
    }
    else op

unfoldable pub retried_task : (service_ids : List Str) → TaskRecord → TaskRecord
retried_task service_ids task =
    if contains service_ids task.service_id && is_some task.reconcile_error
    then record task {
      reconcile_error = none;
      applied_generation = none;
      observed = ObservedTaskState.pending;
    }
    else task

-- An operation on the stack that has not started its deployment.
unfoldable pub is_preparing : (stack_name : Str) → ServiceOperationRecord → Bool
is_preparing stack_name op =
    str_eq op.stack stack_name && active op.view.status && is_none op.view.deployment_generation

unfoldable pub retried :
    ClusterState
    → (stack_name : Str) → (service_ids : List Str) → (generation now_unix_ms : ℕ) → ClusterState
retried state stack_name service_ids generation now_unix_ms =
    record (with_deployment state stack_name (retried_deployment now_unix_ms)) {
      service_operations =
          map_values (retried_operation stack_name generation now_unix_ms) state.service_operations;
      tasks = map_values (retried_task service_ids) state.tasks;
    }

unfoldable pub retry_stack_deployment :
    ClusterState → (stack_name : Str) → (now_unix_ms : ℕ) → Response ClusterState
retry_stack_deployment state stack_name now_unix_ms =
    if any (is_preparing stack_name) (values state.service_operations)
    then Response.err ControllerError.conflict
    else elim (get state.stacks stack_name) [
      | none ↦ Response.err ControllerError.not_found
      | some stack ↦ elim (deployment_of state stack_name) [
        | none ↦ Response.err ControllerError.not_found
        | some deployment ↦
            if not (can_be_retried deployment.status)
            then Response.err ControllerError.conflict
            else if deployment.retry_revision == u64_max
            then Response.err ControllerError.invalid
            else Response.ok
                (retried state stack_name stack.services deployment.generation now_unix_ms)
      ]
    ]
