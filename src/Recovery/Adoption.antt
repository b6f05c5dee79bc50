-- ===== src/Recovery/Adoption.antt =====
-- recovery.rs: `restore_unclaimed_service_revisions` and `adopt_unclaimed_tasks`.
use swarmlite.Base.{
  ℕ, max, Bool, true, false, Option, none, some, List, [], ◌∷◌, map, ◌&&◌, ◌||◌, not, if◌then◌else◌,
  ltb, ◌==◌, filter, any, all, is_none, Str, codes, str_eq, str_lt,
}
use swarmlite.Base.Map.{get, insert, remove, update, values, contains_key}
use swarmlite.Base.Sort.{sort_by}
use swarmlite.Cluster.{
  ServiceSpec, DesiredTaskState, ObservedTaskState, is_stopped, TaskRecord, UnclaimedTask,
  ServiceRecord, ClusterState,
}
use swarmlite.Scheduler.Ports.{contains_ℕ, service_ports}

abbrev u64_max : ℕ
u64_max = 0xffffffffffffffff

-- Every routed port is bound by the task's container.
unfoldable pub binds_ports : UnclaimedTask → List ℕ → Bool
binds_ports task routed_ports =
    all
      (λ target.
        any (λ port. port.target == target && str_eq port.protocol (codes "tcp")) task.ports)
      routed_ports

unfoldable pub recovery_candidate_matches :
    UnclaimedTask → ServiceRecord → (spec_hash : Str) → (routed_ports : List ℕ) → Bool
recovery_candidate_matches task service spec_hash routed_ports =
    str_eq task.stack service.stack
    && str_eq task.service service.name
    && str_eq task.spec_hash spec_hash
    && ltb task.slot service.spec.replicas
    && binds_ports task routed_ports

unfoldable pub recovery_task_priority : ObservedTaskState → ℕ
recovery_task_priority ObservedTaskState.healthy = 5
recovery_task_priority ObservedTaskState.running = 4
recovery_task_priority ObservedTaskState.starting = 3
recovery_task_priority ObservedTaskState.pending = 2
recovery_task_priority ObservedTaskState.failed = 1
recovery_task_priority _ = 0

-- `sort_by`: the slot, the better state first, the newer revision first, the id.
unfoldable pub candidate_lt : UnclaimedTask → UnclaimedTask → Bool
candidate_lt left right =
    let l = recovery_task_priority left.observed in
    let r = recovery_task_priority right.observed in
    if ltb left.slot right.slot
    then true
    else if left.slot == right.slot
    then if ltb r l
      then true
      else if l == r
      then if ltb right.revision left.revision
        then true
        else (left.revision == right.revision) && str_lt left.id right.id
      else false
    else false

-- `Iterator::max`.
unfoldable pub max_revision : List UnclaimedTask → Option ℕ
max_revision [] = none
max_revision (task ∷ ts) = elim (max_revision ts) [
  | none ↦ some task.revision
  | some r ↦ some (max task.revision r)
]

-- The record of an adopted task.
unfoldable pub adopted_task : ServiceRecord → UnclaimedTask → TaskRecord
adopted_task service candidate = record {
  image_id = none;
  job = none;
  id = candidate.id;
  service_id = service.id;
  revision = service.revision;
  slot = candidate.slot;
  node_id = candidate.node_id;
  desired = DesiredTaskState.running;
  observed = candidate.observed;
  ports = candidate.ports;
  config_digests = candidate.config_digests;
  container_id = candidate.container_id;
  drain_until_unix_ms = none;
  applied_generation = none;
  reconcile_error = none;
}

-- The task moves from the unclaimed ones to the tasks.
unfoldable pub claim : ClusterState → ServiceRecord → UnclaimedTask → ClusterState
claim state service candidate = record state {
  tasks = insert candidate.id (adopted_task service candidate) state.tasks;
  unclaimed_tasks = remove candidate.id state.unclaimed_tasks;
}

-- The loop over the candidates of a service, with the slots that are taken.
unfoldable pub adopt_candidates :
    ClusterState → ServiceRecord → (occupied_slots : List ℕ) → List UnclaimedTask → ClusterState
adopt_candidates state service occupied_slots [] = state
adopt_candidates state service occupied_slots (candidate ∷ rest) =
    let skipped = adopt_candidates state service occupied_slots rest in
    let claimed =
      adopt_candidates (claim state service candidate) service (candidate.slot ∷ occupied_slots)
        rest in
    if contains_ℕ occupied_slots candidate.slot || contains_key state.tasks candidate.id
    then skipped
    else claimed

-- A task of the service that is not stopped takes its slot.
unfoldable pub occupies_slot : Str → TaskRecord → Bool
occupies_slot service_id task = str_eq task.service_id service_id && not (is_stopped task.desired)

unfoldable pub slots_of : Str → ClusterState → List ℕ
slots_of service_id state =
    map (λ task. task.slot) (filter (occupies_slot service_id) (values state.tasks))

module _ (service_spec_hash : ServiceSpec → Str) where
  unfoldable pub is_adoptable : ClusterState → ServiceRecord → UnclaimedTask → Bool
  is_adoptable state service task =
      recovery_candidate_matches task service (service_spec_hash service.spec)
        (service_ports state service)
      && task.revision == service.revision

  unfoldable pub recovery_candidates : ClusterState → ServiceRecord → List UnclaimedTask
  recovery_candidates state service =
      sort_by candidate_lt (filter (is_adoptable state service) (values state.unclaimed_tasks))

  unfoldable pub adopt_services : ClusterState → List ServiceRecord → ClusterState
  adopt_services state [] = state
  adopt_services state (service ∷ services) =
      adopt_services
        (adopt_candidates state service (slots_of service.id state)
          (recovery_candidates state service))
        services

  unfoldable pub adopt_unclaimed_tasks : ClusterState → (stack_name : Str) → ClusterState
  adopt_unclaimed_tasks state stack_name = adopt_services state (
      filter
        (λ service.
          str_eq service.stack stack_name && not service.deleted && is_none service.spec.job)
        (values state.services))

  -- The revision of the containers that a new service finds.
  unfoldable pub restored_revision : ClusterState → ServiceRecord → Option ℕ
  restored_revision state service = max_revision (
      filter
        (λ task.
          recovery_candidate_matches task service (service_spec_hash service.spec)
            (service_ports state service)
          && ltb 0 task.revision
          && ltb task.revision u64_max)
        (values state.unclaimed_tasks))

  unfoldable pub restore_one : ClusterState → Str → ClusterState
  restore_one state service_id = elim (get state.services service_id) [
    | none ↦ state
    | some service ↦
        if is_none service.spec.job
        then elim (restored_revision state service) [
          | none ↦ state
          | some revision ↦ record state {
            services = update service_id (λ s. record s { revision = revision }) state.services;
          }
        ]
        else state
  ]

  unfoldable pub restore_unclaimed_service_revisions : ClusterState → List Str → ClusterState
  restore_unclaimed_service_revisions state [] = state
  restore_unclaimed_service_revisions state (id ∷ ids) =
      restore_unclaimed_service_revisions (restore_one state id) ids
