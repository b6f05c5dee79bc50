-- ===== src/Apply/Revisions.antt =====
-- deployment.rs, `apply_guarded`: what the loop makes of each service.
use mathlib.Core.Option
use swarmlite.Base.{
  ℕ, ◌+◌, ◌≡◌, refl, sym, ap, ◌∙◌, Bool, true, false, Option, none, some, List, [], ◌∷◌, ◌&&◌, ◌||◌,
  not, if◌then◌else◌, ◌==◌, arith, any, is_none, ||-false, Bool-cases, Option-cases, inl, inr, Str,
  str_eq, str_eq_refl,
}
use swarmlite.Base.Map.{BTreeMap, get, keys, get-insert}
use swarmlite.Scheduler.Ports.{contains}
use swarmlite.Cluster.{ServiceSpec, ServiceRecord, ClusterState, same_spec, same_spec_iff}
use swarmlite.Apply.Plan.{
  RevisionPolicy, ServiceUpdatePlan, forces, preserves, service_changed, service_update_plan,
  refreshes_images, refreshes_cached_image, u64_max,
}
use swarmlite.Apply.Services.{
  service_id, mark_deleted, Applied, new_service, updated, apply_plan, apply_service,
  apply_services,
}

pub service_id-eq :
    (stack a b : Str) → str_eq (service_id stack a) (service_id stack b) ≡ str_eq a b
unfolding service_id str_eq
service_id-eq [] a b = ground arith
service_id-eq (c ∷ stack) a b = ground (arith, service_id-eq stack a b)

not-false : (b : Bool) → not b ≡ false → b ≡ true
not-false b h = ground arith

-- A service that has not changed has the specification already, and is not deleted.
unchanged :
    (before : ServiceRecord) (spec : ServiceSpec) (ports : Bool)
    → service_changed before spec ports ≡ false
    → (before.spec ≡ spec) × (before.deleted ≡ false)
unfolding service_changed
unchanged before spec ports c =
    let outer = ||-false _ _ c in
    let inner = ||-false _ _ outer.0 in
    ((same_spec_iff before.spec spec).0 (not-false (same_spec before.spec spec) inner.1), inner.0)

module _ (previous : ClusterState) (policy : RevisionPolicy) (live : List Str) (stack_name : Str)
    (routing_ports_changed : Str → Bool) where
  -- The revision that a service has after it is applied.
  unfoldable pub next_revision : Str → ServiceSpec → Option ServiceRecord → ℕ
  next_revision name spec none = 1
  next_revision name spec (some before) =
      before.revision
      + (if forces policy before.name
            || service_changed before spec (routing_ports_changed name)
              && not (preserves policy before.name)
          then 1
          else 0)

  -- A plan leaves the other services, and sets this one.
  plan-other :
      (id name : Str) (spec : ServiceSpec) (existing : ServiceRecord) (plan : ServiceUpdatePlan)
      (applied next : Applied) (j : Str)
      → str_eq id j ≡ false
      → apply_plan previous policy live stack_name routing_ports_changed id name spec existing plan
          applied
        ≡ some next
      → get next.services j ≡ get applied.services j
  unfolding apply_plan updated
  plan-other id name spec existing ServiceUpdatePlan.verify_only applied next j e h =
      elim (Bool-cases (refreshes_images policy)) [
        | inl k ↦ ap (λ x. get x.services j) (sym (Option.some-injective _ _ (rw k at h)))
        | inr k ↦ ap (λ x. get x.services j) (sym (Option.some-injective _ _ (rw k at h)))
      ]
  plan-other id name spec existing ServiceUpdatePlan.resolve_image applied next j e h =
      elim (Bool-cases (existing.revision == u64_max)) [
        | inl k ↦ absurd (cc (rw k at h))
        | inr k ↦ ap (λ x. get x.services j) (sym (Option.some-injective _ _ (rw k at h)))
      ]
  plan-other id name spec existing (ServiceUpdatePlan.reconcile bump) applied next j e h =
      elim (Option-cases (updated existing spec bump)) [
        | inl k ↦ absurd (cc (rw (apply_plan, k) at h))
        | inr (s, k) ↦
            ap (λ x. get x.services j) (sym (Option.some-injective _ _ (rw (apply_plan, k) at h)))
            ∙ get-insert id j s applied.services
            ∙ rw e refl
      ]

  pub service-other :
      (name : Str) (spec : ServiceSpec) (applied next : Applied) (j : Str)
      → str_eq (service_id stack_name name) j ≡ false
      → apply_service previous policy live stack_name routing_ports_changed name spec applied
        ≡ some next
      → get next.services j ≡ get applied.services j
  unfolding apply_service
  service-other name spec applied next j e h =
      let id = service_id stack_name name in
      elim (Option-cases (get applied.services id)) [
        | inl k ↦
            ap (λ x. get x.services j)
              (sym (Option.some-injective _ _ (rw (apply_service, k) at h)))
            ∙ get-insert id j (new_service stack_name id name spec) applied.services
            ∙ rw e refl
        | inr (existing, k) ↦ elim (Option-cases (get previous.services id)) [
          | inl l ↦ absurd (cc (rw (apply_service, k, l) at h))
          | inr (before, l) ↦
              plan-other id name spec existing
                (service_update_plan before spec (routing_ports_changed name) policy) applied next j
                e (rw (apply_service, k, l) at h)
        ]
      ]

  pub services-other :
      (specs : BTreeMap ServiceSpec) (applied result : Applied) (name : Str)
      → any (λ n. str_eq n name) (keys specs) ≡ false
      → apply_services previous policy live stack_name routing_ports_changed specs applied
        ≡ some result
      → get result.services (service_id stack_name name)
        ≡ get applied.services (service_id stack_name name)
  unfolding apply_services any keys
  services-other [] applied result name out h =
      ap (λ x. get x.services (service_id stack_name name)) (sym (Option.some-injective _ _ h))
  services-other ((n, spec) ∷ rest) applied result name out h =
      let parts = ||-false (str_eq n name) (any (λ m. str_eq m name) (keys rest)) out in
      elim (Option-cases
        (apply_service previous policy live stack_name routing_ports_changed n spec applied)) [
          | inl k ↦ absurd (cc (rw (apply_services, k) at h))
          | inr (next, k) ↦
              services-other rest next result name parts.1 (rw (apply_services, k) at h)
              ∙ service-other n spec applied next (service_id stack_name name)
                  (service_id-eq stack_name n name ∙ parts.0) k
        ]

  -- A record with the specification, not deleted, and with the next revision.
  abbrev pub IsUpdated : Str → ServiceSpec → Option ServiceRecord → Option ServiceRecord → Type 0
  IsUpdated name spec before after =
      (s : ServiceRecord) × (after ≡ some s)
      × (s.spec ≡ spec)
      × (s.deleted ≡ false)
      × (s.revision ≡ next_revision name spec before)

  pub marked :
      (desired_ids : List Str) (before : ServiceRecord)
      → contains desired_ids before.id ≡ true
      → before.deleted ≡ false
      → (mark_deleted stack_name desired_ids before).deleted ≡ false
  unfolding mark_deleted
  marked desired_ids before known kept = elim (Bool-cases (str_eq before.stack stack_name)) [
    | inl e ↦ rw (mark_deleted, e, known) refl
    | inr e ↦ rw (mark_deleted, e) kept
  ]

  marked-same :
      (desired_ids : List Str) (before : ServiceRecord)
      → ((mark_deleted stack_name desired_ids before).spec ≡ before.spec)
        × ((mark_deleted stack_name desired_ids before).revision ≡ before.revision)
  unfolding mark_deleted
  marked-same desired_ids before = elim (Bool-cases (str_eq before.stack stack_name)) [
    | inl e ↦ (rw (mark_deleted, e) refl, rw (mark_deleted, e) refl)
    | inr e ↦ (rw (mark_deleted, e) refl, rw (mark_deleted, e) refl)
  ]

  -- A service that is set to the new specification.
  reconciled :
      (id name : Str) (spec : ServiceSpec) (existing : ServiceRecord) (bump : Bool)
      (applied next : Applied)
      → apply_plan previous policy live stack_name routing_ports_changed id name spec existing
          (ServiceUpdatePlan.reconcile bump)
          applied
        ≡ some next
      → (s : ServiceRecord) × (get next.services id ≡ some s)
        × (s.spec ≡ spec)
        × (s.deleted ≡ false)
        × (s.revision ≡ existing.revision + (if bump then 1 else 0))
  unfolding apply_plan updated
  reconciled id name spec existing bump applied next h = elim (Bool-cases bump) [
    | inr b ↦
        let same = Option.some-injective _ _ (rw (apply_plan, updated, b) at h) in
        (
          record existing { spec = spec; deleted = false },
          ap (λ x. get x.services id) (sym same)
              ∙ get-insert id id _ applied.services
              ∙ rw (str_eq_refl id) refl,
          refl,
          refl,
          rw b (omega arith),
        )
    | inl b ↦ elim (Bool-cases (existing.revision == u64_max)) [
      | inl m ↦ absurd (cc (rw (apply_plan, updated, b, m) at h))
      | inr m ↦
          let same = Option.some-injective _ _ (rw (apply_plan, updated, b, m) at h) in
          (
            record existing { revision = existing.revision + 1; spec = spec; deleted = false },
            ap (λ x. get x.services id) (sym same)
                ∙ get-insert id id _ applied.services
                ∙ rw (str_eq_refl id) refl,
            refl,
            refl,
            rw b refl,
          )
    ]
  ]

  -- A service that stays as it is.
  verified :
      (id name : Str) (spec : ServiceSpec) (existing : ServiceRecord) (applied next : Applied)
      → apply_plan previous policy live stack_name routing_ports_changed id name spec existing
          ServiceUpdatePlan.verify_only applied
        ≡ some next
      → next.services ≡ applied.services
  unfolding apply_plan
  verified id name spec existing applied next h = elim (Bool-cases (refreshes_images policy)) [
    | inl k ↦ ap (λ x. x.services) (sym (Option.some-injective _ _ (rw k at h)))
    | inr k ↦ ap (λ x. x.services) (sym (Option.some-injective _ _ (rw k at h)))
  ]

  looked_up :
      (id name : Str) (spec : ServiceSpec) (existing : ServiceRecord) (applied next : Applied)
      → apply_plan previous policy live stack_name routing_ports_changed id name spec existing
          ServiceUpdatePlan.resolve_image applied
        ≡ some next
      → next.services ≡ applied.services
  unfolding apply_plan
  looked_up id name spec existing applied next h =
      elim (Bool-cases (existing.revision == u64_max)) [
        | inl k ↦ absurd (cc (rw k at h))
        | inr k ↦ ap (λ x. x.services) (sym (Option.some-injective _ _ (rw k at h)))
      ]

  the_rest :
      (name : Str) (spec : ServiceSpec) (before existing : ServiceRecord) (applied next : Applied)
      → let id = service_id stack_name name in
        next.services ≡ applied.services
        → get applied.services id ≡ some existing
        → existing.spec ≡ spec
        → existing.deleted ≡ false
        → existing.revision ≡ next_revision name spec (some before)
        → IsUpdated name spec (some before) (get next.services id)
  the_rest name spec before existing applied next services found same kept revision = (
    existing,
    ap (λ m. get m (service_id stack_name name)) services ∙ found,
    same,
    kept,
    revision,
  )

  pub planned :
      (name : Str) (spec : ServiceSpec) (desired_ids : List Str) (before : ServiceRecord)
      (applied next : Applied)
      → let id = service_id stack_name name in
        contains desired_ids before.id ≡ true
        → get applied.services id ≡ some (mark_deleted stack_name desired_ids before)
        → apply_plan previous policy live stack_name routing_ports_changed id name spec
            (mark_deleted stack_name desired_ids before)
            (service_update_plan before spec (routing_ports_changed name) policy)
            applied
          ≡ some next
        → IsUpdated name spec (some before) (get next.services id)
  unfolding service_update_plan next_revision
  planned name spec desired_ids before applied next known found h =
      let id = service_id stack_name name in
      let existing = mark_deleted stack_name desired_ids before in
      let same = marked-same desired_ids before in
      elim (Bool-cases (forces policy before.name)) [
        | inl f ↦
            let r =
              reconciled id name spec existing true applied next
                (rw (service_update_plan, f) at h) in
            (r.0, r.1, r.2, r.3, r.4 ∙ rw f (ap (λ n. n + 1) same.1))
        | inr f ↦ elim (Bool-cases (service_changed before spec (routing_ports_changed name))) [
          | inl c ↦
              let bump = not (preserves policy before.name) in
              let r =
                reconciled id name spec existing bump applied next
                  (rw (service_update_plan, f, c) at h) in
              (r.0, r.1, r.2, r.3, r.4 ∙ rw (f, c) (ap (λ n. n + (if bump then 1 else 0)) same.1))
          | inr c ↦
              let kept = unchanged before spec (routing_ports_changed name) c in
              let revision : existing.revision ≡ next_revision name spec (some before) =
                same.1 ∙ rw (f, c) (omega arith) in
              let rest = λ (services : next.services ≡ applied.services).
                the_rest name spec before existing applied next services found (same.0 ∙ kept.0)
                  (marked desired_ids before known kept.1) revision in
              elim (Bool-cases (
                is_none spec.job
                && refreshes_images policy
                && refreshes_cached_image spec.pull_policy spec.image)) [
                  | inl k ↦ rest (
                      looked_up id name spec existing applied next
                        (rw (service_update_plan, f, c, k) at h))
                  | inr k ↦ rest (
                      verified id name spec existing applied next
                        (rw (service_update_plan, f, c, k) at h))
                ]
        ]
      ]
