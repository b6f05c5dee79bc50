-- ===== src/Operations/Advance.antt =====
-- controller/service_operations.rs: `candidate_nodes` and `advance_service_operations_locked`, and
-- `pins_images` of crates/swarmlite-core/src/service_operations.rs.
use swarmlite.Base.{
  ℕ, ◌+◌, ◌-◌, ◌*◌, min, Bool, true, false, Option, none, some, List, [], ◌∷◌, ◌&&◌, ◌||◌, not,
  if◌then◌else◌, ltb, leb, ◌==◌, any, count, filter, map, is_some, is_none, is_some_and, Str, codes,
  str_eq, str_lt,
}
use swarmlite.Base.Map.{BTreeMap, get, insert, remove, values, keys}
use swarmlite.Cluster.{
  ServiceOperationStatus, is_restart, is_pull_redeploy, active, ServiceOperationRecord,
  StackDeploymentStatus, StackDeploymentRecord, NodeRecord, ServiceRecord, TaskRecord, is_healthy,
  ClusterState, same_operation,
}
use swarmlite.Scheduler.Ports.{contains}
use swarmlite.Scheduler.Constraints.{matches_constraints}
use swarmlite.Operations.{fail, succeed, advance_restart}

-- `ServiceOperationRecord::pins_images`.
unfoldable pub pins_images : ServiceOperationRecord → ClusterState → Bool
pins_images op state =
    is_pull_redeploy op.view.kind
    && (active op.view.status
        || is_some op.view.deployment_generation
          && is_some_and (get state.services op.view.service)
              (λ service. not service.deleted && service.revision == op.target_revision))

unfoldable pub is_candidate_node : ServiceRecord → (live : List Str) → NodeRecord → Bool
is_candidate_node service live node =
    contains live node.id && matches_constraints node service.spec.constraints

-- The ids of the nodes that the service may run on, in order; `none` where one of them does not
-- support service operations.
unfoldable pub candidate_nodes :
    ClusterState → ServiceRecord → (live : List Str) → Option (List Str)
candidate_nodes state service live =
    let candidates = filter (is_candidate_node service live) (values state.nodes) in
    if any (λ node. not node.supports_service_operations) candidates
    then none
    else some (map (λ node. node.id) candidates)

-- `BTreeSet::extend`.
unfoldable pub insert_id : Str → List Str → List Str
insert_id id [] = id ∷ []
insert_id id (x ∷ xs) =
    if str_eq x id then x ∷ xs else if str_lt id x then id ∷ x ∷ xs else x ∷ insert_id id xs

unfoldable pub extend_ids : List Str → List Str → List Str
extend_ids ids [] = ids
extend_ids ids (x ∷ xs) = extend_ids (insert_id x ids) xs

-- A redeployment looks at its candidates as long as it pins images.
unfoldable pub prepare :
    ClusterState → (live : List Str) → ServiceOperationRecord → (now : ℕ) → ServiceOperationRecord
prepare state live operation now =
    if not (pins_images operation state)
    then operation
    else elim (get state.services operation.view.service) [
      | none ↦ operation
      | some service ↦ elim (candidate_nodes state service live) [
        | some nodes ↦ record operation {
          preparing_nodes = extend_ids operation.preparing_nodes nodes;
        }
        | none ↦
            if is_none operation.view.deployment_generation
            then fail operation (codes "unsupported_agent") now
            else record operation { view = record operation.view { blocked = true } }
      ]
    ]

abbrev pub is_healthy_deployment : StackDeploymentStatus → Bool
is_healthy_deployment StackDeploymentStatus.healthy = true
is_healthy_deployment _ = false

abbrev pub is_failed_deployment : StackDeploymentStatus → Bool
is_failed_deployment StackDeploymentStatus.failed = true
is_failed_deployment _ = false

abbrev is_stalled_deployment : StackDeploymentStatus → Bool
is_stalled_deployment StackDeploymentStatus.stalled = true
is_stalled_deployment _ = false

abbrev is_blocked_deployment : StackDeploymentStatus → Bool
is_blocked_deployment StackDeploymentStatus.blocked = true
is_blocked_deployment _ = false

-- The stack's deployment if it has the generation.
unfoldable pub own_deployment :
    ClusterState → (stack : Str) → (generation : ℕ) → Option StackDeploymentRecord
own_deployment state stack generation = elim (get state.stacks stack) [
  | none ↦ none
  | some record_of ↦ elim record_of.deployment [
    | none ↦ none
    | some deployment ↦ if deployment.generation == generation then some deployment else none
  ]
]

-- A healthy task of the service at the operation's revision.
unfoldable pub is_redeployed : ServiceOperationRecord → TaskRecord → Bool
is_redeployed operation task =
    str_eq task.service_id operation.view.service
    && task.revision == operation.target_revision
    && is_healthy task.observed

unfoldable pub follow :
    ClusterState
    → ServiceOperationRecord
    → StackDeploymentRecord
    → (now : ℕ) → ServiceOperationRecord
follow state operation deployment now =
    if is_healthy_deployment deployment.status
    then succeed operation now
    else if is_failed_deployment deployment.status
    then fail operation (codes "deployment_failed") now
    else record operation {
      view = record operation.view {
        stalled = is_stalled_deployment deployment.status;
        blocked = is_blocked_deployment deployment.status;
        phase = codes "waiting_health";
        completed_tasks = count (is_redeployed operation) (values state.tasks);
      };
    }

unfoldable pub advance_redeploy :
    ClusterState → ServiceOperationRecord → (now : ℕ) → ServiceOperationRecord
advance_redeploy state operation now =
    let running : ServiceOperationRecord = record operation {
      view = record operation.view { status = ServiceOperationStatus.running };
    } in
    elim operation.view.deployment_generation [
      | some generation ↦ elim (own_deployment state operation.stack generation) [
        | some deployment ↦ follow state running deployment now
        | none ↦ fail running (codes "superseded") now
      ]
      | none ↦
          if ltb (15 * 60 * 1000) (now - operation.created_at_unix_ms)
          then fail running (codes "image_preparation_timed_out") now
          else running
    ]

unfoldable pub advance_active :
    ClusterState → (live : List Str) → ServiceOperationRecord → (now : ℕ) → ServiceOperationRecord
advance_active state live operation now =
    if active operation.view.status
    then if is_restart operation.view.kind
      then advance_restart state live operation now
      else advance_redeploy state operation now
    else operation

-- A change of the operation is a new revision of its view.
unfoldable pub bumped :
    (old operation : ServiceOperationRecord) → (now : ℕ) → ServiceOperationRecord
bumped old operation now = if same_operation old operation then operation else record operation {
  view = record operation.view { revision = min (operation.view.revision + 1) 0xffffffffffffffff };
  updated_at_unix_ms = now;
}

unfoldable pub advance_operation :
    ClusterState → (live : List Str) → ServiceOperationRecord → (now : ℕ) → ServiceOperationRecord
advance_operation state live old now =
    bumped old (advance_active state live (prepare state live old now) now) now

-- The operation is taken out while it is advanced, and put back.
unfoldable pub advance_each :
    ClusterState → (live : List Str) → (ids : List Str) → (now : ℕ) → ClusterState
advance_each state live [] now = state
advance_each state live (id ∷ ids) now = elim (get state.service_operations id) [
  | none ↦ advance_each state live ids now
  | some operation ↦
      let without : ClusterState = record state {
        service_operations = remove id state.service_operations;
      } in
      advance_each
        (record state {
          service_operations =
              insert id (advance_operation without live operation now) without.service_operations;
        })
        live ids now
]

-- Ninety days after its end an operation that pins no images goes.
unfoldable pub is_removable : ClusterState → (now : ℕ) → ServiceOperationRecord → Bool
is_removable state now op =
    not (active op.view.status)
    && not (pins_images op state)
    && is_some_and op.finished_at_unix_ms (λ finished. leb (90 * 86400000) (now - finished))

unfoldable pub remove_each :
    List Str → BTreeMap ServiceOperationRecord → BTreeMap ServiceOperationRecord
remove_each [] operations = operations
remove_each (id ∷ ids) operations = remove_each ids (remove id operations)

unfoldable pub advance_service_operations_locked :
    ClusterState → (live : List Str) → (now : ℕ) → ClusterState
advance_service_operations_locked state live now =
    let advanced = advance_each state live (keys state.service_operations) now in
    let removable =
      map (λ op. op.view.operation_id)
        (filter (is_removable advanced now) (values advanced.service_operations)) in
    record advanced { service_operations = remove_each removable advanced.service_operations }
