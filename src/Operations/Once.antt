-- ===== src/Operations/Once.antt =====
-- controller/service_operations.rs: an operation that is submitted again after the controller has
-- gone on.
use mathlib.Core.Option
use swarmlite.Base.{
  ℕ, ◌≡◌, ◌≤◌, ◌⊎◌, Bool, true, false, none, List, [], ◌∷◌, ◌&&◌, not, count, find, Str, str_eq,
}
use swarmlite.Base.Map.{values}
use swarmlite.Cluster.{ServiceOperation, ServiceOperationRecord, ClusterState}
use swarmlite.Operations.Advance.{advance_service_operations_locked}
use swarmlite.Operations.Submit.{
  Answer, Submission, is_printable_key, may_not, is_repeat, principal_id, submit_service_operation,
}
use swarmlite.Operations.Kept.{identity}

-- The passes of the controller over the operations, each at a time and with live nodes.
unfoldable pub advances : List (ℕ × List Str) → ClusterState → ClusterState
advances [] state = state
advances ((now, live) ∷ passes) state =
    advances passes (advance_service_operations_locked state live now)

module _ (request : Submission) where
  -- The caller's key, and another request or another operation.
  abbrev other_of : Str → Str × Str × Str × Str × Str → Bool
  other_of id (stack, principal, key, hash, operation_id) =
      (str_eq principal (principal_id request.principal) && str_eq key request.key)
      && not (str_eq hash request.request_hash && str_eq operation_id id)

  abbrev is_other : Str → ServiceOperationRecord → Bool
  is_other id op = other_of id (identity op)

  -- What holds where a call is accepted.
  abbrev IsAlone : Answer (ClusterState × ServiceOperation) → Type 0
  IsAlone (Answer.err e) = Unit
  IsAlone (Answer.ok r) =
      (is_printable_key request.key ≡ true)
      × (may_not request.principal request.target request.kind ≡ false)
      × (count (is_repeat request) (values r.0.service_operations) ≤ 1)
      × (count (is_other r.1.operation_id) (values r.0.service_operations) ≡ 0)

-- The answer of a later call about the same operation, or the operation has been removed.
abbrev pub IsAnswered : ClusterState → (request again : Submission) → ServiceOperation → Type 0
IsAnswered state request again view =
    (find (is_repeat request) (values state.service_operations) ≡ none)
    ⊎ ((now_view : ServiceOperation) × (submit_service_operation state again
          ≡ Answer.ok (state, now_view))
        × (now_view.operation_id ≡ view.operation_id))
