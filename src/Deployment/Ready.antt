-- ===== src/Deployment/Ready.antt =====
-- deployment.rs: `deployment_replacement_ready` and `deployment_is_healthy`.
use swarmlite.Base.{
  ℕ, Bool, true, false, none, some, ◌&&◌, ◌||◌, not, if◌then◌else◌, leb, ◌==◌, all, any, count,
  is_some, is_some_and, Str, str_eq,
}
use swarmlite.Base.Map.{get, values}
use swarmlite.Cluster.{
  ObservedTaskState, is_running, is_healthy, is_complete, TaskRecord, ServiceRecord, ClusterState,
  StackRecord, StackDeploymentRecord,
}

-- A task of the service's revision that has applied the generation and serves.
unfoldable pub is_applied : ServiceRecord → (generation : ℕ) → TaskRecord → Bool
is_applied service generation task =
    str_eq task.service_id service.id
    && task.revision == service.revision
    && is_running task.desired
    && is_healthy task.observed
    && is_some_and task.applied_generation (λ applied. applied == generation)
    && all (λ port. is_some port.published) task.ports

unfoldable pub replicas_healthy : ClusterState → (generation : ℕ) → (service_id : Str) → Bool
replicas_healthy state generation service_id = elim (get state.services service_id) [
  | none ↦ false
  | some service ↦
      if service.deleted
      then false
      else if is_some service.spec.job
      then true
      else leb service.spec.replicas (count (is_applied service generation) (values state.tasks))
]

unfoldable pub stack_replaced :
    ClusterState
    → StackRecord
    → StackDeploymentRecord
    → (generation : ℕ) → (gateway_ready : Bool) → Bool
stack_replaced state stack deployment generation gateway_ready =
    deployment.generation == generation
    && all (λ resolution. is_complete resolution.status) (values deployment.image_resolutions)
    && ((not deployment.wait_for_gateway || gateway_ready)
        && all (replicas_healthy state generation) stack.services)

unfoldable pub deployment_replacement_ready :
    ClusterState → (stack_name : Str) → (generation : ℕ) → (gateway_ready : Bool) → Bool
deployment_replacement_ready state stack_name generation gateway_ready =
    is_some_and (get state.stacks stack_name) (λ stack.
      is_some_and stack.deployment
        (λ deployment. stack_replaced state stack deployment generation gateway_ready))

abbrev pub is_lost : ObservedTaskState → Bool
is_lost ObservedTaskState.lost = true
is_lost _ = false

unfoldable pub is_current : ServiceRecord → TaskRecord → Bool
is_current service task =
    not service.deleted && task.revision == service.revision && is_running task.desired

-- No task of an earlier state of the stack is left.
unfoldable pub is_settled : ClusterState → Str → TaskRecord → Bool
is_settled state stack_name task =
    if is_some task.job then true else elim (get state.services task.service_id) [
      | none ↦ true
      | some service ↦
          if not (str_eq service.stack stack_name)
          then true
          else is_current service task || is_lost task.observed
    ]

unfoldable pub deployment_is_healthy :
    ClusterState → (stack_name : Str) → (generation : ℕ) → (gateway_ready : Bool) → Bool
deployment_is_healthy state stack_name generation gateway_ready =
    deployment_replacement_ready state stack_name generation gateway_ready
    && all (is_settled state stack_name) (values state.tasks)
    && not (any (λ task. str_eq task.stack stack_name) (values state.unclaimed_tasks))
