-- ===== src/Recovery/Status.antt =====
-- recovery.rs: `recovery_status`, how many tasks wait and how many slots have several.
use swarmlite.Base.{
  ℕ, ◌+◌, Bool, List, [], ◌∷◌, ◌&&◌, not, if◌then◌else◌, ltb, ◌==◌, length, any, count, str_eq,
}
use swarmlite.Base.Map.{values}
use swarmlite.Cluster.{UnclaimedTask, ClusterState}

pub record RecoveryStatus : Type 0 where
  pub awaiting_adoption : ℕ
  pub conflicting_slots : ℕ

unfoldable pub same_slot : UnclaimedTask → UnclaimedTask → Bool
same_slot a b = str_eq a.stack b.stack && str_eq a.service b.service && a.slot == b.slot

-- The map from slots to counts has a key for each slot: here each is counted at its last task.
unfoldable pub conflicts : List UnclaimedTask → List UnclaimedTask → ℕ
conflicts all_tasks [] = 0
conflicts all_tasks (task ∷ rest) =
    (if not (any (same_slot task) rest) && ltb 1 (count (same_slot task) all_tasks) then 1 else 0)
    + conflicts all_tasks rest

unfoldable pub recovery_status : ClusterState → RecoveryStatus
recovery_status state = record {
  awaiting_adoption = length (values state.unclaimed_tasks);
  conflicting_slots = conflicts (values state.unclaimed_tasks) (values state.unclaimed_tasks);
}
