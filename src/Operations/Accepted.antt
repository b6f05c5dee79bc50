-- ===== src/Operations/Accepted.antt =====
-- controller/service_operations.rs: an operation that is accepted.
use swarmlite.Base.{
  ℕ, ◌≤◌, ◌≡◌, refl, sym, ap, ◌∙◌, max, false, List, [], ◌∷◌, ◌&&◌, arith, any, count, find,
  ||-false, Bool-cases, Option-cases, inl, inr, Str, str_eq, str_eq_iff,
}
use swarmlite.Base.Map.{insert, values}
use swarmlite.Base.Tally.{count-insert-le}
use swarmlite.Cluster.{
  ServiceOperation, ServiceOperationRecord, RestartTarget, ServiceRecord, active, ClusterState,
}
use swarmlite.Operations.Exclusive.{occupies}
use swarmlite.Operations.Outcome.{Answer-cases, submit_new-cases}
use swarmlite.Operations.Submit.{
  Answer, Submission, is_printable_key, may_not, is_repeat, resolve_service, submit_new, is_busy,
  new_operation, new_view, submit_service_operation,
}

none_active :
    (stack : Str) (ops : List ServiceOperationRecord)
    → any (λ op. str_eq op.stack stack && active op.view.status) ops ≡ false
    → count (occupies stack) ops ≡ 0
unfolding any count occupies
none_active stack [] h = refl
none_active stack (op ∷ ops) h = ground (arith, none_active stack ops)

-- The state of an answer.
unfoldable pub state_of : ClusterState → Answer (ClusterState × ServiceOperation) → ClusterState
state_of default (Answer.ok r) = r.0
state_of default (Answer.err e) = default

module _ (state : ClusterState) (request : Submission) (stack : Str) where
  elsewhere :
      (op : ServiceOperationRecord) → str_eq op.stack stack ≡ false → occupies stack op ≡ false
  unfolding occupies
  elsewhere op e = rw e refl

  -- One more operation on a stack that has none.
  added-occupies :
      (service : ServiceRecord) (tasks : List RestartTarget) (nodes : List Str) (revision : ℕ)
      → is_busy state service.stack ≡ false
      → count (occupies stack) (
          values (
            insert request.new_id
              (new_operation request service tasks nodes revision)
              state.service_operations))
        ≤ max 1 (count (occupies stack) (values state.service_operations))
  unfolding is_busy new_operation new_view
  added-occupies service tasks nodes revision free =
      let op = new_operation request service tasks nodes revision in
      let bound = count-insert-le (occupies stack) request.new_id op state.service_operations in
      let idle =
        none_active service.stack (values state.service_operations) (||-false _ _ free).0 in
      elim (Bool-cases (str_eq service.stack stack)) [
        | inl e ↦
            let here : count (occupies stack) (values state.service_operations) ≡ 0 =
              ap (λ n. count (occupies n) (values state.service_operations))
                (sym ((str_eq_iff service.stack stack).0 e))
              ∙ idle in
            ground (arith, bound, here)
        | inr e ↦ ground (arith, bound, elsewhere op e)
      ]

  submit_new-occupies :
      (service : ServiceRecord)
      → count
          (occupies stack)
          (values (state_of state (submit_new state request service)).service_operations)
        ≤ max 1 (count (occupies stack) (values state.service_operations))
  unfolding state_of
  submit_new-occupies service = elim (submit_new-cases state request service) [
    | inl (e, r) ↦ rw r (omega arith)
    | inr (tasks, nodes, revision, free, r) ↦
        rw r (added-occupies service tasks nodes revision free)
  ]

-- At most one operation is active on a stack: whether a submission is accepted, refused or repeated,
-- the operations on a stack that are active are afterwards at most one, or as many as before.
pub submit_service_operation_exclusive :
    (state : ClusterState) (request : Submission) (stack : Str)
    → count
        (occupies stack)
        (values (state_of state (submit_service_operation state request)).service_operations)
      ≤ max 1 (count (occupies stack) (values state.service_operations))
unfolding submit_service_operation state_of
submit_service_operation_exclusive state request stack =
    let stays : count (occupies stack) (values state.service_operations)
        ≤ max 1 (count (occupies stack) (values state.service_operations)) =
      omega arith in
    elim (Bool-cases (is_printable_key request.key)) [
      | inr k ↦ rw (submit_service_operation, k) stays
      | inl k ↦ elim (Bool-cases (may_not request.principal request.target request.kind)) [
        | inl m ↦ rw (submit_service_operation, k, m) stays
        | inr m ↦ elim (Option-cases (find (is_repeat request) (values state.service_operations))) [
          | inr (op, f) ↦ elim (Bool-cases (str_eq op.request_hash request.request_hash)) [
            | inl h ↦ rw (submit_service_operation, k, m, f, h) stays
            | inr h ↦ rw (submit_service_operation, k, m, f, h) stays
          ]
          | inl f ↦ elim (Answer-cases (resolve_service state request.target)) [
            | inl (e, r) ↦ rw (submit_service_operation, k, m, f, r) stays
            | inr (service, r) ↦
                rw (submit_service_operation, k, m, f, r)
                  (submit_new-occupies state request stack service)
          ]
        ]
      ]
    ]
