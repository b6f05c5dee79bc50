-- ===== src/Operations/Kept.antt =====
-- controller/service_operations.rs: what an advance leaves of an operation, and counting operations
-- through the loop.
use mathlib.Core.Option
use swarmlite.Base.{
  ℕ, ◌+◌, ◌-◌, ◌*◌, ◌≤◌, ◌≡◌, refl, sym, ◌∙◌, Bool, true, false, some, List, [], ◌∷◌, ◌||◌, not,
  if◌then◌else◌, arith, ltb, all, count, is_none, Bool-cases, ||-right, Option-cases, inl, inr, Str,
  str_eq,
}
use swarmlite.Base.Map.{BTreeMap, get, insert, remove, values, keys}
use swarmlite.Base.Tally.{count-insert-le}
use swarmlite.Cluster.{
  ServiceOperationRecord, active, is_restart, StackDeploymentRecord, ClusterState, same_operation,
}
use swarmlite.Operations.{
  fail, succeed, advance_restart, finish, after_step, Step, step_targets, is_completed,
}
use swarmlite.Operations.Advance.{
  pins_images, candidate_nodes, prepare, own_deployment, follow, is_healthy_deployment,
  is_failed_deployment, advance_redeploy, advance_active, bumped, advance_operation, advance_each,
  remove_each, advance_service_operations_locked,
}

count-remove-le {ℓ} :
    {V : Type ℓ} (p : V → Bool) (k : Str) (m : BTreeMap V)
    → count p (values (remove k m)) ≤ count p (values m)
unfolding count values remove
count-remove-le p k [] = omega arith
count-remove-le p k ((j, w) ∷ m) = elim (Bool-cases (str_eq j k)) [
  | inl e ↦ rw e (omega (arith, count-remove-le p k m))
  | inr e ↦ rw e (omega (arith, count-remove-le p k m))
]

count-remove {ℓ} :
    {V : Type ℓ} (p : V → Bool) (k : Str) (v : V) (m : BTreeMap V)
    → get m k ≡ some v
    → count p (values (remove k m)) + (if p v then 1 else 0) ≤ count p (values m)
unfolding count values remove get
count-remove p k v [] h = absurd (cc h)
count-remove p k v ((j, w) ∷ m) h = elim (Bool-cases (str_eq j k)) [
  | inl e ↦
      let same : w ≡ v = Option.some-injective _ _ (rw e at h) in
      rw e (rw (sym same) (omega (arith, count-remove-le p k m)))
  | inr e ↦ rw e (omega (arith, count-remove p k v m (rw e at h)))
]

excluded : (b : Bool) → (b || not b) ≡ true
excluded true = refl
excluded false = refl

-- What an operation is told by.
abbrev pub identity : ServiceOperationRecord → Str × Str × Str × Str × Str
identity op = (op.stack, op.principal_id, op.idempotency_key, op.request_hash, op.view.operation_id)

module _ (state : ClusterState) (live : List Str) (now : ℕ) where
  -- An advance leaves what tells the operation from others, and what has ended stays so.
  pub prepare-ended :
      (op : ServiceOperationRecord)
      → (identity (prepare state live op now) ≡ identity op)
        × ((active op.view.status || not (active (prepare state live op now).view.status)) ≡ true)
  unfolding prepare fail
  prepare-ended op = elim (Bool-cases (pins_images op state)) [
    | inr p ↦ rw (prepare, p) (refl, excluded (active op.view.status))
    | inl p ↦ elim (Option-cases (get state.services op.view.service)) [
      | inl s ↦ rw (prepare, p, s) (refl, excluded (active op.view.status))
      | inr (service, s) ↦ elim (Option-cases (candidate_nodes state service live)) [
        | inr (nodes, c) ↦ rw (prepare, p, s, c) (refl, excluded (active op.view.status))
        | inl c ↦ elim (Bool-cases (is_none op.view.deployment_generation)) [
          | inl g ↦ rw (prepare, p, s, c, g) (refl, ||-right (active op.view.status))
          | inr g ↦ rw (prepare, p, s, c, g) (refl, excluded (active op.view.status))
        ]
      ]
    ]
  ]

  identity-after_step :
      (op : ServiceOperationRecord) (step : Step) → identity (after_step op now step) ≡ identity op
  unfolding after_step fail
  identity-after_step op Step.nothing_left = refl
  identity-after_step op (Step.failed e) = refl
  identity-after_step op (Step.moved ts phase) = refl

  identity-finish : (op : ServiceOperationRecord) → identity (finish op now) ≡ identity op
  unfolding finish succeed
  identity-finish op = elim (Bool-cases (all is_completed op.tasks)) [
    | inl e ↦ rw (finish, e) refl
    | inr e ↦ rw (finish, e) refl
  ]

  identity-follow :
      (op : ServiceOperationRecord) (d : StackDeploymentRecord)
      → identity (follow state op d now) ≡ identity op
  unfolding follow succeed fail
  identity-follow op d = elim (Bool-cases (is_healthy_deployment d.status)) [
    | inl h ↦ rw (follow, h) refl
    | inr h ↦ elim (Bool-cases (is_failed_deployment d.status)) [
      | inl f ↦ rw (follow, h, f) refl
      | inr f ↦ rw (follow, h, f) refl
    ]
  ]

  identity-redeploy :
      (op : ServiceOperationRecord) → identity (advance_redeploy state op now) ≡ identity op
  unfolding advance_redeploy fail
  identity-redeploy op = elim (Option-cases op.view.deployment_generation) [
    | inr (g, e) ↦ elim (Option-cases (own_deployment state op.stack g)) [
      | inl k ↦ rw (advance_redeploy, e, k) refl
      | inr (d, k) ↦ rw (advance_redeploy, e, k) (identity-follow _ d)
    ]
    | inl e ↦ elim (Bool-cases (ltb (15 * 60 * 1000) (now - op.created_at_unix_ms))) [
      | inl l ↦ rw (advance_redeploy, e, l) refl
      | inr l ↦ rw (advance_redeploy, e, l) refl
    ]
  ]

  pub active-ended :
      (op : ServiceOperationRecord)
      → (identity (advance_active state live op now) ≡ identity op)
        × ((active op.view.status || not (active (advance_active state live op now).view.status))
            ≡ true)
  unfolding advance_active advance_restart
  active-ended op = elim (Bool-cases (active op.view.status)) [
    | inr a ↦ rw (advance_active, a) (refl, rw a refl)
    | inl a ↦ elim (Bool-cases (is_restart op.view.kind)) [
      | inl r ↦ (
        rw (advance_active, a, r)
            (identity-finish _
              ∙ identity-after_step _ (step_targets state live op.view.service now op.tasks)),
        rw a refl,
      )
      | inr r ↦ (rw (advance_active, a, r) (identity-redeploy op), rw a refl)
    ]
  ]

  pub bumped-ended :
      (old op : ServiceOperationRecord)
      → (identity (bumped old op now) ≡ identity op)
        × ((bumped old op now).view.status ≡ op.view.status)
  unfolding bumped
  bumped-ended old op = elim (Bool-cases (same_operation old op)) [
    | inl e ↦ (rw (bumped, e) refl, rw (bumped, e) refl)
    | inr e ↦ (rw (bumped, e) refl, rw (bumped, e) refl)
  ]

  pub identity-advance :
      (op : ServiceOperationRecord) → identity (advance_operation state live op now) ≡ identity op
  unfolding advance_operation
  identity-advance op =
      let prepared = prepare state live op now in
      (bumped-ended op (advance_active state live prepared now)).0
      ∙ (active-ended prepared).0
      ∙ (prepare-ended op).0

-- A test that no advance of one operation makes true is true of no more operations afterwards.
module _ (p : ServiceOperationRecord → Bool) (live : List Str) (now : ℕ)
    (falls : (state : ClusterState) (op : ServiceOperationRecord)
      → (if p (advance_operation state live op now) then 1 else 0) ≤ (if p op then 1 else 0)) where
  advance_each-le :
      (ids : List Str) (state : ClusterState)
      → count p (values (advance_each state live ids now).service_operations)
        ≤ count p (values state.service_operations)
  unfolding advance_each
  advance_each-le [] state = omega arith
  advance_each-le (id ∷ ids) state = elim (Option-cases (get state.service_operations id)) [
    | inl e ↦ rw (advance_each, e) (advance_each-le ids state)
    | inr (op, e) ↦
        let left = remove id state.service_operations in
        let without : ClusterState = record state { service_operations = left } in
        let moved = advance_operation without live op now in
        let next : ClusterState = record state { service_operations = insert id moved left } in
        rw (advance_each, e)
          (omega (
            arith,
            advance_each-le ids next,
            count-insert-le p id moved left,
            count-remove p id op state.service_operations e,
            falls without op,
          ))
  ]

  remove_each-le :
      (ids : List Str) (m : BTreeMap ServiceOperationRecord)
      → count p (values (remove_each ids m)) ≤ count p (values m)
  unfolding remove_each
  remove_each-le [] m = omega arith
  remove_each-le (id ∷ ids) m =
      omega (arith, remove_each-le ids (remove id m), count-remove-le p id m)

  pub advance-count :
      (state : ClusterState)
      → count p (values (advance_service_operations_locked state live now).service_operations)
        ≤ count p (values state.service_operations)
  unfolding advance_service_operations_locked
  advance-count state = omega (
    arith,
    remove_each-le _
        (advance_each state live (keys state.service_operations) now).service_operations,
    advance_each-le (keys state.service_operations) state,
  )
