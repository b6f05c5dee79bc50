-- ===== src/Scheduler/Constraints.antt =====
-- scheduler.rs: placement constraints, and the capacity of a node for the replicas of a service.
pub mod Labels
use swarmlite.Base.{
  ◌+◌, Bool, true, false, Option, none, some, List, ◌&&◌, ◌||◌, not, if◌then◌else◌, ltb, ◌==◌, all,
  count, is_some_and, is_none_or, Str, codes, str_eq,
}
use swarmlite.Base.Map.{get, values}
use swarmlite.Base.Scan.{strip_prefix, split_once, trim}
use swarmlite.Cluster.{
  is_running, is_failed_or_lost, TaskRecord, NodeRecord, ServiceRecord, ClusterState,
}

-- The value that the left side of a constraint names on a node.
unfoldable pub constraint_actual : NodeRecord → Str → Option Str
unfolding strip_prefix
constraint_actual node left =
    if str_eq left (codes "node.id") || str_eq left (codes "node.hostname")
    then some node.id
    else elim (strip_prefix (codes "node.labels.") left) [
      | some label ↦ get node.labels label
      | none ↦ none
    ]

unfoldable pub option_str_eq : Option Str → Str → Bool
option_str_eq o s = is_some_and o (λ t. str_eq t s)

unfoldable pub matches_constraint : NodeRecord → Str → Bool
matches_constraint node constraint = elim (split_once (codes "!=") constraint) [
  | some parts ↦ not (option_str_eq (constraint_actual node (trim parts.0)) (trim parts.1))
  | none ↦ elim (split_once (codes "==") constraint) [
    | some parts ↦ option_str_eq (constraint_actual node (trim parts.0)) (trim parts.1)
    | none ↦ false
  ]
]

unfoldable pub matches_constraints : NodeRecord → List Str → Bool
matches_constraints node constraints = all (matches_constraint node) constraints

-- A task that occupies its node for its service.
abbrev pub occupies : NodeRecord → ServiceRecord → TaskRecord → Bool
occupies node service task =
    str_eq task.node_id node.id
    && str_eq task.service_id service.id
    && not (is_failed_or_lost task.observed)

abbrev pub old_running_on : NodeRecord → ServiceRecord → TaskRecord → Bool
old_running_on node service task =
    str_eq task.node_id node.id
    && str_eq task.service_id service.id
    && not (task.revision == service.revision)
    && is_running task.desired
    && not (is_failed_or_lost task.observed)

unfoldable pub node_has_replica_capacity : ClusterState → NodeRecord → ServiceRecord → Bool
node_has_replica_capacity state node service =
    is_none_or service.spec.max_replicas_per_node λ limit.
      let active = count (occupies node service) (values state.tasks) in
      let old_running = count (old_running_on node service) (values state.tasks) in
      if limit == 0
      then true
      else if ltb active limit
      then true
      else ltb 0 service.spec.max_surge && ltb active (limit + old_running)
