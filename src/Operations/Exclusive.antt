-- ===== src/Operations/Exclusive.antt =====
-- controller/service_operations.rs: how many operations on a stack are active.
use swarmlite.Base.{ℕ, ◌≤◌, ap, ◌∙◌, Bool, List, ◌&&◌, if◌then◌else◌, arith, count, Str, str_eq}
use swarmlite.Base.Map.{values}
use swarmlite.Cluster.{ServiceOperationRecord, active, ClusterState}
use swarmlite.Operations.Kept.{prepare-ended, active-ended, bumped-ended, advance-count}
use swarmlite.Operations.Advance.{
  prepare, advance_active, advance_operation, advance_service_operations_locked,
}

-- The operation is active on the stack.
unfoldable pub occupies : Str → ServiceOperationRecord → Bool
occupies stack op = str_eq op.stack stack && active op.view.status

module _ (state : ClusterState) (live : List Str) (now : ℕ) where
  occupies-advance :
      (stack : Str) (op : ServiceOperationRecord)
      → (if occupies stack (advance_operation state live op now) then 1 else 0)
        ≤ (if occupies stack op then 1 else 0)
  unfolding occupies advance_operation
  occupies-advance stack op =
      let prepared = prepare state live op now in
      let advanced = advance_active state live prepared now in
      let last = bumped-ended state live now op advanced in
      let middle = active-ended state live now prepared in
      let first = prepare-ended state live now op in
      rw (ap (λ i. i.0) (last.0 ∙ middle.0 ∙ first.0), ap active last.1)
        (ground (arith, first.1, middle.1))

-- No advance makes an operation of a stack active: for every stack, the operations on it that are
-- active are afterwards at most as many as before.
pub advance_service_operations_locked-le :
    (state : ClusterState) (live : List Str) (now : ℕ) (stack : Str)
    → count
        (occupies stack)
        (values (advance_service_operations_locked state live now).service_operations)
      ≤ count (occupies stack) (values state.service_operations)
advance_service_operations_locked-le state live now stack =
    advance-count (occupies stack) live now (λ s op. occupies-advance s live now stack op) state
