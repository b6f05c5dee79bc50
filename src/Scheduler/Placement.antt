-- ===== src/Scheduler/Placement.antt =====
-- scheduler.rs: `schedule_task`, which chooses the node, the ports and the slot of a new task.
-- `new_v4` stands for `Uuid::new_v4` of the uuid crate.
pub mod Order
pub mod Slots
pub mod Sound
pub mod Total
use mathlib.Core.Option
use swarmlite.Base.{
  ℕ, zero, suc, ◌+◌, Bool, Option, none, some, List, [], ◌∷◌, map, ◌&&◌, ◌||◌, not, if◌then◌else◌,
  ltb, ◌==◌, filter, find, count, is_some, is_none_or, Str, str_eq, str_lt,
}
use swarmlite.Base.Map.{values, contains_key}
use swarmlite.Base.Sort.{sort_by}
use swarmlite.Cluster.{
  ServiceSpec, is_pull_redeploy, ServiceOperationRecord, DesiredTaskState, ObservedTaskState,
  is_running, is_job_terminal, PortBinding, TaskRecord, NodeRecord, ServiceRecord, ClusterState,
}
use swarmlite.Scheduler.Constraints.{matches_constraints, node_has_replica_capacity}
use swarmlite.Scheduler.Ports.{contains, contains_ℕ, allocate_ports, explicit_ports_available}

-- `TaskRecord`s that the sort key and the slots count: desired running, and no finished job.
abbrev pub counts_as_running : TaskRecord → Bool
counts_as_running task =
    is_running task.desired && not (is_some task.job && is_job_terminal task.observed)

abbrev pub Key : Type 0
Key = ℕ × ℕ × ℕ × Str

unfoldable pub node_key : ClusterState → ServiceRecord → NodeRecord → Key
node_key state service node = (
  count
      (λ task.
        str_eq task.node_id node.id
        && str_eq task.service_id service.id
        && (task.revision == service.revision)
        && counts_as_running task)
      (values state.tasks),
  count
      (λ task.
        str_eq task.node_id node.id && str_eq task.service_id service.id && counts_as_running task)
      (values state.tasks),
  count (λ task. str_eq task.node_id node.id && counts_as_running task) (values state.tasks),
  node.id,
)

-- The derived order of the tuple.
unfoldable pub key_lt : Key → Key → Bool
key_lt (a, b, c, s) (a', b', c', s') =
    ltb a a' || (a == a') && (ltb b b' || (b == b') && (ltb c c' || (c == c') && str_lt s s'))

-- The operation whose prepared images pin the service to prepared nodes.
unfoldable pub pinned_operation : ClusterState → ServiceRecord → Option ServiceOperationRecord
pinned_operation state service =
    find
      (λ op.
        str_eq op.view.service service.id
        && (op.target_revision == service.revision)
        && is_pull_redeploy op.view.kind
        && is_some op.view.deployment_generation)
      (values state.service_operations)

-- The conjunction of the filters of `schedule_task`.
unfoldable pub is_candidate : ClusterState → ServiceRecord → List Str → NodeRecord → Bool
is_candidate state service live_nodes node =
    contains live_nodes node.id
    && matches_constraints node service.spec.constraints
    && is_none_or (pinned_operation state service)
        (λ op. node.supports_service_operations && contains_key op.prepared_images node.id)
    && node_has_replica_capacity state node service
    && explicit_ports_available state node service.spec

unfoldable pub candidates : ClusterState → ServiceRecord → List Str → List NodeRecord
unfolding is_candidate
candidates state service live_nodes =
    sort_by (λ a b. key_lt (node_key state service a) (node_key state service b))
      (filter (is_candidate state service live_nodes) (values state.nodes))

abbrev pub takes_slot : ServiceRecord → TaskRecord → Bool
takes_slot service task =
    str_eq task.service_id service.id
    && (task.revision == service.revision)
    && counts_as_running task

unfoldable pub used_slots : ClusterState → ServiceRecord → List ℕ
used_slots state service =
    map (λ task. task.slot) (filter (takes_slot service) (values state.tasks))

-- `(slot..slot + left).find(|slot| !used_slots.contains(slot))`.
unfoldable pub first_free_slot : ℕ → ℕ → List ℕ → Option ℕ
first_free_slot zero slot used = none
first_free_slot (suc left) slot used =
    let rest = first_free_slot left (slot + 1) used in
    if contains_ℕ used slot then rest else some slot

-- model.rs: `service_config_digests`.
set_insert_str : Str → List Str → List Str
set_insert_str s [] = s ∷ []
set_insert_str s (t ∷ ts) =
    if str_eq s t then t ∷ ts else if str_lt s t then s ∷ t ∷ ts else t ∷ set_insert_str s ts

collect_strs : List Str → List Str
unfolding set_insert_str
collect_strs [] = []
collect_strs (d ∷ ds) = set_insert_str d (collect_strs ds)

unfoldable pub service_config_digests : ServiceSpec → List Str
unfolding collect_strs
service_config_digests spec = collect_strs (map (λ config. config.digest) spec.configs)

module _ (new_v4 : ClusterState → Str) where
  new_task : ClusterState → ServiceRecord → NodeRecord → List PortBinding → ℕ → TaskRecord
  new_task state service node ports slot = record {
    image_id = none;
    job = none;
    id = new_v4 state;
    service_id = service.id;
    revision = service.revision;
    slot = slot;
    node_id = node.id;
    desired = DesiredTaskState.running;
    observed = ObservedTaskState.pending;
    ports = ports;
    config_digests = service_config_digests service.spec;
    container_id = none;
    drain_until_unix_ms = none;
    applied_generation = none;
    reconcile_error = none;
  }

  -- On the first of the sorted candidates.
  place_first : ClusterState → ServiceRecord → List NodeRecord → Option TaskRecord
  unfolding new_task
  place_first state service [] = none
  place_first state service (node ∷ rest) = elim (allocate_ports state service) [
    | none ↦ none
    | some ports ↦
        Option.map (λ slot. new_task state service node ports slot)
          (first_free_slot service.spec.replicas 0 (used_slots state service))
  ]

  unfoldable pub schedule_task : ClusterState → ServiceRecord → List Str → Option TaskRecord
  unfolding place_first candidates allocate_ports used_slots first_free_slot
  schedule_task state service live_nodes =
      place_first state service (candidates state service live_nodes)
