-- ===== src/Scheduler/Placement/Total.antt =====
-- `schedule_task` finds a place whenever there is one.
use swarmlite.Base.{
  ℕ, ◌<◌, ◌≡◌, ◌≢◌, refl, Bool, true, false, none, some, List, arith, inl, inr, Option-cases, Str,
}
use swarmlite.Cluster.{TaskRecord, NodeRecord, ServiceRecord, ClusterState}
use swarmlite.Scheduler.Constraints.{node_has_replica_capacity}
use swarmlite.Scheduler.Ports.{contains_ℕ}
use swarmlite.Scheduler.Ports.Used.{explicit_ports_available_lem}
use swarmlite.Scheduler.Placement.{is_candidate, pinned_operation, used_slots, schedule_task}
use swarmlite.Scheduler.Placement.Sound.{IsEligible, HasRoom, schedule_task-none}

HasRoom-capacity :
    (state : ClusterState) (node : NodeRecord) (service : ServiceRecord)
    → ((limit : ℕ)
        → service.spec.max_replicas_per_node ≡ some limit
        → limit ≢ 0
        → HasRoom state service node limit)
    → node_has_replica_capacity state node service ≡ true
unfolding node_has_replica_capacity
HasRoom-capacity state node service room = elim (Option-cases service.spec.max_replicas_per_node) [
  | inl e ↦ rw e refl
  | inr (limit, e) ↦ rw e (ground (arith, room limit e))
]

IsEligible-candidate :
    (state : ClusterState) (service : ServiceRecord) (live_nodes : List Str) (node : NodeRecord)
    → pinned_operation state service ≡ none
    → IsEligible state service live_nodes node
    → is_candidate state service live_nodes node ≡ true
unfolding is_candidate
IsEligible-candidate state service live_nodes node free e = ground (
  arith,
  e.live,
  e.constrained,
  HasRoom-capacity state node service e.room,
  explicit_ports_available_lem state node service.spec,
  e.ports_free,
)

-- If no prepared redeployment pins the service, some node is eligible and some slot below the
-- replica count is free, then a task is scheduled.
pub schedule_task-total :
    (new_v4 : ClusterState → Str) (state : ClusterState) (service : ServiceRecord)
    (live_nodes : List Str) (node : NodeRecord) (slot : ℕ)
    → pinned_operation state service ≡ none
    → IsEligible state service live_nodes node
    → slot < service.spec.replicas
    → contains_ℕ (used_slots state service) slot ≡ false
    → (task : TaskRecord) × (schedule_task new_v4 state service live_nodes ≡ some task)
schedule_task-total new_v4 state service live_nodes node slot free e below unused =
    elim (Option-cases (schedule_task new_v4 state service live_nodes)) [
      | inr found ↦ found
      | inl h ↦ absurd (elim (schedule_task-none new_v4 state service live_nodes h) [
        | inl no_node ↦
            absurd_eq (no_node node e.listed)
              (IsEligible-candidate state service live_nodes node free e)
        | inr no_slot ↦ absurd_eq unused (no_slot slot below)
      ])
    ]
  where
    absurd_eq : {b : Bool} → b ≡ false → b ≡ true → ⊥
    absurd_eq p q = cc
