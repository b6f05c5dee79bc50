-- ===== src/Apply/Services.antt =====
-- deployment.rs, `apply_guarded`: the loop over the services of the new specification.
use swarmlite.Base.{
  ◌+◌, Bool, true, false, Option, none, some, List, [], ◌∷◌, ◌++◌, ◌&&◌, not, if◌then◌else◌, ◌==◌,
  filter, is_some, map, Str, str_eq,
}
use swarmlite.Base.Map.{BTreeMap, get, insert, map_values, values, keys}
use swarmlite.Scheduler.Ports.{contains}
use swarmlite.Cluster.{
  ServiceSpec, ServiceRecord, TaskRecord, ObservedTaskState, is_running, ClusterState,
  ImageResolutionStatus, DeploymentImageResolutionRecord, DeploymentImageResolutionNodeRecord,
}
use swarmlite.Apply.Plan.{
  RevisionPolicy, ServiceUpdatePlan, refreshes_images, service_update_plan, u64_max,
}

unfoldable pub service_id : (stack service : Str) → Str
service_id stack service = stack ++ (b'.' ∷ service)

-- The services of the stack that are not in the new specification.
unfoldable pub mark_deleted :
    (stack_name : Str) → (desired_ids : List Str) → ServiceRecord → ServiceRecord
mark_deleted stack_name desired_ids service =
    if str_eq service.stack stack_name
    then record service { deleted = not (contains desired_ids service.id) }
    else service

abbrev is_up : ObservedTaskState → Bool
is_up ObservedTaskState.starting = true
is_up ObservedTaskState.running = true
is_up ObservedTaskState.healthy = true
is_up _ = false

-- The task runs the service on a live node, in a container.
unfoldable pub looks_up_image : ServiceRecord → (live : List Str) → TaskRecord → Bool
looks_up_image existing live task =
    str_eq task.service_id existing.id
    && task.revision == existing.revision
    && is_running task.desired
    && contains live task.node_id
    && is_some task.container_id
    && is_up task.observed

-- `entry(node_id).or_insert_with(..).task_ids.push(..)`.
unfoldable pub add_target :
    TaskRecord
    → BTreeMap DeploymentImageResolutionNodeRecord
    → BTreeMap DeploymentImageResolutionNodeRecord
add_target task targets = elim (get targets task.node_id) [
  | none ↦
      insert task.node_id
        (record {
          task_ids = task.id ∷ [];
          status = ImageResolutionStatus.checking;
          old_image_ids = [];
          resolved_image_id = none;
          error = none;
        })
        targets
  | some node ↦
      insert task.node_id (record node { task_ids = node.task_ids ++ task.id ∷ [] }) targets
]

unfoldable pub targets_of :
    List TaskRecord
    → BTreeMap DeploymentImageResolutionNodeRecord
    → BTreeMap DeploymentImageResolutionNodeRecord
targets_of [] targets = targets
targets_of (task ∷ tasks) targets = targets_of tasks (add_target task targets)

abbrev initial_status : BTreeMap DeploymentImageResolutionNodeRecord → ImageResolutionStatus
initial_status [] = ImageResolutionStatus.unchanged
initial_status (node ∷ nodes) = ImageResolutionStatus.checking

unfoldable pub resolution_of :
    (id name : Str)
    → ServiceSpec
    → ServiceRecord
    → ImageResolutionStatus
    → BTreeMap DeploymentImageResolutionNodeRecord
    → DeploymentImageResolutionRecord
resolution_of id name spec existing status nodes = record {
  service_id = id;
  service = name;
  image = spec.image;
  baseline_revision = existing.revision;
  status = status;
  nodes = nodes;
}

-- What the loop carries.
pub record Applied : Type 0 where
  pub services : BTreeMap ServiceRecord
  pub new_service_ids : List Str
  pub image_resolutions : BTreeMap DeploymentImageResolutionRecord

unfoldable pub new_service : (stack_name id name : Str) → ServiceSpec → ServiceRecord
new_service stack_name id name spec = record {
  job_cursor = none;
  id = id;
  stack = stack_name;
  name = name;
  revision = 1;
  spec = spec;
  deleted = false;
}

-- The service that is there is set to the new specification; a revision that would overflow fails.
unfoldable pub updated : ServiceRecord → ServiceSpec → (bump_revision : Bool) → Option ServiceRecord
updated existing spec bump_revision =
    if not bump_revision
    then some (record existing { spec = spec; deleted = false })
    else if existing.revision == u64_max
    then none
    else some (record existing { revision = existing.revision + 1; spec = spec; deleted = false })

module _ (previous : ClusterState) (policy : RevisionPolicy) (live : List Str) (stack_name : Str)
    (routing_ports_changed : Str → Bool) where
  unfoldable pub apply_plan :
      (id name : Str) → ServiceSpec → ServiceRecord → ServiceUpdatePlan → Applied → Option Applied
  apply_plan id name spec existing ServiceUpdatePlan.verify_only applied = some (
      if refreshes_images policy
      then record applied {
        image_resolutions =
            insert id (resolution_of id name spec existing ImageResolutionStatus.skipped [])
              applied.image_resolutions;
      }
      else applied)
  apply_plan id name spec existing ServiceUpdatePlan.resolve_image applied =
      let targets = targets_of (filter (looks_up_image existing live) (values previous.tasks)) [] in
      if existing.revision == u64_max
      then none
      else some (record applied {
        image_resolutions =
            insert id (resolution_of id name spec existing (initial_status targets) targets)
              applied.image_resolutions;
      })
  apply_plan id name spec existing (ServiceUpdatePlan.reconcile bump_revision) applied =
      elim (updated existing spec bump_revision) [
        | none ↦ none
        | some service ↦ some (record applied { services = insert id service applied.services })
      ]

  -- One service; `none` where its revision would overflow.
  unfoldable pub apply_service : Str → ServiceSpec → Applied → Option Applied
  apply_service name spec applied =
      let id = service_id stack_name name in
      elim (get applied.services id) [
        | none ↦ some (record applied {
          services = insert id (new_service stack_name id name spec) applied.services;
          new_service_ids = applied.new_service_ids ++ id ∷ [];
        })
        | some existing ↦ elim (get previous.services id) [
          | none ↦ none
          | some before ↦
              apply_plan id name spec existing
                (service_update_plan before spec (routing_ports_changed name) policy) applied
        ]
      ]

  unfoldable pub apply_services : BTreeMap ServiceSpec → Applied → Option Applied
  apply_services [] applied = some applied
  apply_services ((name, spec) ∷ rest) applied = elim (apply_service name spec applied) [
    | none ↦ none
    | some next ↦ apply_services rest next
  ]

unfoldable pub desired_ids_of : (stack_name : Str) → BTreeMap ServiceSpec → List Str
desired_ids_of stack_name specs = map (service_id stack_name) (keys specs)

-- What the loop starts with.
unfoldable pub start : ClusterState → (stack_name : Str) → BTreeMap ServiceSpec → Applied
start previous stack_name specs = record {
  services =
      map_values (mark_deleted stack_name (desired_ids_of stack_name specs)) previous.services;
  new_service_ids = [];
  image_resolutions = [];
}
