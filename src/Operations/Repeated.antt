-- ===== src/Operations/Repeated.antt =====
-- controller/service_operations.rs: an operation that is submitted again.
use swarmlite.Base.{
  ℕ, ◌≡◌, refl, Bool, true, false, none, some, List, [], ◌∷◌, find, subst, Bool-cases, Option-cases,
  inl, inr, Str, str_eq, str_lt, str_eq_refl,
}
use swarmlite.Base.Map.{BTreeMap, insert, values}
use swarmlite.Cluster.{
  ServiceOperation, ServiceOperationRecord, RestartTarget, ServiceRecord, ClusterState,
}
use swarmlite.Operations.Submit.{
  Answer, Submission, is_printable_key, may_not, is_repeat, resolve_service, submit_new,
  new_operation, principal_id, submit_service_operation,
}
use swarmlite.Operations.Outcome.{Answer-cases, submit_new-cases}

-- What is inserted is found, where nothing was found before.
find-insert {ℓ} :
    {A : Type ℓ} (p : A → Bool) (key : Str) (x : A) (m : BTreeMap A)
    → p x ≡ true
    → find p (values m) ≡ none
    → find p (values (insert key x m)) ≡ some x
unfolding find values insert
find-insert p key x [] px h = rw px refl
find-insert p key x ((k, y) ∷ m) px h = elim (Bool-cases (p y)) [
  | inl e ↦ cc (rw e at h)
  | inr e ↦ elim (Bool-cases (str_eq k key)) [
    | inl j ↦ rw (j, px) refl
    | inr j ↦ elim (Bool-cases (str_lt key k)) [
      | inl l ↦ rw (j, l, px) refl
      | inr l ↦ rw (j, l, e) (find-insert p key x m px (rw e at h))
    ]
  ]
]

module _ (request : Submission) where
  -- The operation with the caller's key answers.
  pub submit-repeat :
      (state : ClusterState) (op : ServiceOperationRecord)
      → is_printable_key request.key ≡ true
      → may_not request.principal request.target request.kind ≡ false
      → find (is_repeat request) (values state.service_operations) ≡ some op
      → str_eq op.request_hash request.request_hash ≡ true
      → submit_service_operation state request ≡ Answer.ok (state, op.view)
  unfolding submit_service_operation
  submit-repeat state op k m f h = rw (submit_service_operation, k, m, f, h) refl

  pub new_operation-repeat :
      (service : ServiceRecord) (tasks : List RestartTarget) (nodes : List Str) (revision : ℕ)
      → is_repeat request (new_operation request service tasks nodes revision) ≡ true
  unfolding is_repeat new_operation
  new_operation-repeat service tasks nodes revision =
      rw (str_eq_refl (principal_id request.principal), str_eq_refl request.key) refl

module _ (later : ℕ) (live : List Str) (id : Str) (generation : ℕ) where
  -- The same call at another time.
  unfoldable pub repeated : Submission → Submission
  repeated request = record request {
    now = later;
    live = live;
    new_id = id;
    generation = generation;
  }

  abbrev IsStable : Submission → Answer (ClusterState × ServiceOperation) → Type 0
  IsStable request (Answer.err e) = Unit
  IsStable request (Answer.ok r) = submit_service_operation r.0 (repeated request) ≡ Answer.ok r

  module _ (state : ClusterState) (request : Submission) where
    submit_new-IsStable :
        (service : ServiceRecord)
        → is_printable_key request.key ≡ true
        → may_not request.principal request.target request.kind ≡ false
        → find (is_repeat request) (values state.service_operations) ≡ none
        → IsStable request (submit_new state request service)
    unfolding repeated is_repeat new_operation
    submit_new-IsStable service k m f = elim (submit_new-cases state request service) [
      | inl (e, r) ↦ rw r tt
      | inr (tasks, nodes, revision, free, r) ↦
          let op = new_operation request service tasks nodes revision in
          rw r (
            submit-repeat (repeated request)
              (record state {
                service_operations = insert request.new_id op state.service_operations;
              })
              op k m
              (find-insert (is_repeat request) request.new_id op state.service_operations
                (new_operation-repeat request service tasks nodes revision) f)
              (str_eq_refl request.request_hash))
    ]

    submit_service_operation-IsStable : IsStable request (submit_service_operation state request)
    unfolding submit_service_operation repeated is_repeat
    submit_service_operation-IsStable = elim (Bool-cases (is_printable_key request.key)) [
      | inr k ↦ rw (submit_service_operation, k) tt
      | inl k ↦ elim (Bool-cases (may_not request.principal request.target request.kind)) [
        | inl m ↦ rw (submit_service_operation, k, m) tt
        | inr m ↦ elim (Option-cases (find (is_repeat request) (values state.service_operations))) [
          | inr (op, f) ↦ elim (Bool-cases (str_eq op.request_hash request.request_hash)) [
            | inl h ↦
                rw (submit_service_operation, k, m, f, h)
                  (submit-repeat (repeated request) state op k m f h)
            | inr h ↦ rw (submit_service_operation, k, m, f, h) tt
          ]
          | inl f ↦ elim (Answer-cases (resolve_service state request.target)) [
            | inl (e, r) ↦ rw (submit_service_operation, k, m, f, r) tt
            | inr (service, r) ↦
                rw (submit_service_operation, k, m, f, r) (submit_new-IsStable service k m f)
          ]
        ]
      ]
    ]

    -- A call that is repeated before the state changes is answered alike, and changes nothing.
    pub submit_service_operation_idempotent :
        (r : ClusterState × ServiceOperation)
        → submit_service_operation state request ≡ Answer.ok r
        → submit_service_operation r.0 (repeated request) ≡ Answer.ok r
    submit_service_operation_idempotent r e =
        subst (IsStable request) e submit_service_operation-IsStable
