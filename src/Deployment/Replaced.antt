-- ===== src/Deployment/Replaced.antt =====
-- deployment.rs: what holds of the cluster when a refresh makes a deployment healthy.
use mathlib.Core.Option
use swarmlite.Base.{
  ℕ, ◌≡◌, ◌≢◌, ◌≤◌, sym, ap, ◌∙◌, Bool, true, false, none, some, List, [], ◌∷◌, ◌&&◌, ◌||◌, not,
  arith, all, any, count, filter, length, length-filter, leb, ◌==◌, is_some, is_some_and, ◌⊎◌,
  &&-true, ||-false, Bool-cases, Option-cases, inl, inr, Str, str_eq, str_eq_iff,
}
use swarmlite.Base.Map.{get, keys, values}
use swarmlite.Scheduler.Ports.{contains}
use swarmlite.Cluster.{
  is_active, is_complete, is_running, is_healthy, TaskRecord, UnclaimedTask, ServiceRecord,
  StackRecord, StackDeploymentRecord, ClusterState,
}
use swarmlite.Deployment.Conditions.{deployment_of}
use swarmlite.Deployment.Ready.{
  is_applied, replicas_healthy, stack_replaced, deployment_replacement_ready, is_lost, is_current,
  is_settled, deployment_is_healthy,
}
use swarmlite.Deployment.Moves.{has_succeeded}
use swarmlite.Deployment.Refresh.{refresh_stack_deployments}
use swarmlite.Deployment.Judged.{is_distinct, refreshed, refresh_stack_deployments_lem, unhealthy}

-- A property holds of every element.
pub data Each {ℓ} {A : Type ℓ} (P : A → Type 0) : List A → Type ℓ where
  nil : Each P []
  cons : {x : A} {xs : List A} → P x → Each P xs → Each P (x ∷ xs)

all-Each {ℓ} :
    {A : Type ℓ} {P : A → Type 0} (p : A → Bool)
    → ((x : A) → p x ≡ true → P x)
    → (xs : List A) → all p xs ≡ true
    → Each P xs
unfolding all
all-Each p f [] h = Each.nil
all-Each p f (x ∷ xs) h =
    let parts = &&-true (p x) (all p xs) h in Each.cons (f x parts.0) (all-Each p f xs parts.1)

filter-Each {ℓ} :
    {A : Type ℓ} {P : A → Type 0} (p : A → Bool)
    → ((x : A) → p x ≡ true → P x)
    → (xs : List A) → Each P (filter p xs)
unfolding filter
filter-Each p f [] = Each.nil
filter-Each p f (x ∷ xs) = elim (Bool-cases (p x)) [
  | inl e ↦ rw e (Each.cons (f x e) (filter-Each p f xs))
  | inr e ↦ rw e (filter-Each p f xs)
]

-- A task of the service's revision serves since it has applied the generation.
abbrev pub IsApplied : ServiceRecord → (generation : ℕ) → TaskRecord → Type 0
IsApplied service generation task =
    (task.service_id ≡ service.id)
    × (task.revision ≡ service.revision)
    × (is_running task.desired ≡ true)
    × (is_healthy task.observed ≡ true)
    × (task.applied_generation ≡ some generation)
    × Each (λ port. is_some port.published ≡ true) task.ports

-- The service is a job, or as many tasks as it has replicas serve.
abbrev pub IsServing : ClusterState → (generation : ℕ) → (service_id : Str) → Type 0
IsServing state generation service_id =
    (service : ServiceRecord) × (get state.services service_id ≡ some service)
    × (service.deleted ≡ false)
    × ((is_some service.spec.job ≡ true)
        ⊎ ((chosen : TaskRecord → Bool) × (service.spec.replicas
              ≤ length (filter chosen (values state.tasks)))
            × Each (IsApplied service generation) (filter chosen (values state.tasks))))

-- The task is a job's or is lost, belongs to no service of the stack, or is one that its service
-- wants.
abbrev pub IsSettled : ClusterState → (stack_name : Str) → TaskRecord → Type 0
IsSettled state stack_name task =
    (is_some task.job ≡ true)
    ⊎ ((get state.services task.service_id ≡ none)
        ⊎ ((service : ServiceRecord) × (get state.services task.service_id ≡ some service)
            × ((service.stack ≢ stack_name)
                ⊎ ((is_lost task.observed ≡ true)
                    ⊎ ((service.deleted ≡ false)
                        × (task.revision ≡ service.revision)
                        × (is_running task.desired ≡ true))))))

pub record IsReplaced (state : ClusterState) (stack_name : Str) (stack : StackRecord)
    (deployment : StackDeploymentRecord) (gateway_ready : Bool) (unready_tcp : List Str)
    : Type 0 where
  pub resolved : Each (λ r. is_complete r.status ≡ true) (values deployment.image_resolutions)
  pub served :
      (deployment.wait_for_gateway ≡ false)
      ⊎ ((gateway_ready ≡ true) × (contains unready_tcp stack_name ≡ false))
  pub serving : Each (IsServing state deployment.generation) stack.services
  pub settled : Each (IsSettled state stack_name) (values state.tasks)
  pub claimed : Each (λ task. task.stack ≢ stack_name) (values state.unclaimed_tasks)

is_applied-IsApplied :
    (service : ServiceRecord) (generation : ℕ) (task : TaskRecord)
    → is_applied service generation task ≡ true
    → IsApplied service generation task
unfolding is_applied
is_applied-IsApplied service generation task h =
    let own : str_eq task.service_id service.id ≡ true = ground arith in
    let published : all (λ port. is_some port.published) task.ports ≡ true = ground arith in
    let applied : is_some_and task.applied_generation (λ g. g == generation) ≡ true =
      ground arith in
    (
      (str_eq_iff task.service_id service.id).0 own,
      ground arith,
      ground arith,
      ground arith,
      ground arith,
      all-Each (λ port. is_some port.published) (λ port e. e) task.ports published,
    )

module _ (state : ClusterState) where
  replicas_healthy-IsServing :
      (generation : ℕ) (id : Str)
      → replicas_healthy state generation id ≡ true
      → IsServing state generation id
  unfolding replicas_healthy is_applied
  replicas_healthy-IsServing generation id h = elim (Option-cases (get state.services id)) [
    | inl e ↦ absurd (cc (rw (replicas_healthy, e) at h))
    | inr (service, e) ↦ elim (Bool-cases service.deleted) [
      | inl d ↦ absurd (cc (rw (replicas_healthy, e, d) at h))
      | inr d ↦ elim (Bool-cases (is_some service.spec.job)) [
        | inl j ↦ (service, e, d, inl j)
        | inr j ↦
            let chosen = is_applied service generation in
            let test : leb service.spec.replicas (count chosen (values state.tasks)) ≡ true =
              rw (replicas_healthy, e, d, j) at h in
            let enough : service.spec.replicas ≤ count chosen (values state.tasks) = ground arith in
            (
              service,
              e,
              d,
              inr (
                chosen,
                omega (arith, enough, length-filter chosen (values state.tasks)),
                filter-Each chosen (is_applied-IsApplied service generation) (values state.tasks),
              ),
            )
      ]
    ]
  ]

  is_settled-IsSettled :
      (stack_name : Str) (task : TaskRecord)
      → is_settled state stack_name task ≡ true
      → IsSettled state stack_name task
  unfolding is_settled is_current
  is_settled-IsSettled stack_name task h = elim (Bool-cases (is_some task.job)) [
    | inl j ↦ inl j
    | inr j ↦ elim (Option-cases (get state.services task.service_id)) [
      | inl e ↦ inr (inl e)
      | inr (service, e) ↦ elim (Bool-cases (str_eq service.stack stack_name)) [
        | inr other ↦ inr (
            inr
              (service, e, inl (λ same. cc (other, (str_eq_iff service.stack stack_name).1 same))))
        | inl own ↦
            let test : (is_current service task || is_lost task.observed) ≡ true =
              rw (is_settled, j, e, own) at h in
            elim (Bool-cases (is_lost task.observed)) [
              | inl lost ↦ inr (inr (service, e, inr (inl lost)))
              | inr there ↦
                  inr (inr (service, e, inr (inr (ground arith, ground arith, ground arith))))
            ]
      ]
    ]
  ]

none_left :
    (stack_name : Str) (tasks : List UnclaimedTask)
    → any (λ task. str_eq task.stack stack_name) tasks ≡ false
    → Each (λ task. task.stack ≢ stack_name) tasks
unfolding any
none_left stack_name [] h = Each.nil
none_left stack_name (task ∷ tasks) h =
    let parts =
      ||-false (str_eq task.stack stack_name) (any (λ t. str_eq t.stack stack_name) tasks) h in
    Each.cons (λ same. cc (parts.0, (str_eq_iff task.stack stack_name).1 same))
      (none_left stack_name tasks parts.1)

module _ (state : ClusterState) (stack_name : Str) (d : StackDeploymentRecord)
    (gateway_ready : Bool) (unready_tcp : List Str) where
  served_cases :
      (not d.wait_for_gateway || (gateway_ready && not (contains unready_tcp stack_name))) ≡ true
      → (d.wait_for_gateway ≡ false)
        ⊎ ((gateway_ready ≡ true) × (contains unready_tcp stack_name ≡ false))
  served_cases h = elim (Bool-cases d.wait_for_gateway) [
    | inr w ↦ inl w
    | inl w ↦ inr (ground arith, ground arith)
  ]

  replaced_all :
      (stack : StackRecord)
      → stack_replaced state stack d d.generation
          (gateway_ready && not (contains unready_tcp stack_name))
        ≡ true
      → (all (λ r. is_complete r.status) (values d.image_resolutions) ≡ true)
        × ((not d.wait_for_gateway || (gateway_ready && not (contains unready_tcp stack_name)))
            ≡ true)
        × (all (replicas_healthy state d.generation) stack.services ≡ true)
  unfolding stack_replaced
  replaced_all stack h = (ground arith, ground arith, ground arith)

  healthy-IsReplaced :
      deployment_of state stack_name ≡ some d
      → deployment_is_healthy state stack_name d.generation
          (gateway_ready && not (contains unready_tcp stack_name))
        ≡ true
      → (stack : StackRecord) × (get state.stacks stack_name ≡ some stack)
        × IsReplaced state stack_name stack d gateway_ready unready_tcp
  unfolding deployment_of deployment_is_healthy deployment_replacement_ready stack_replaced
  healthy-IsReplaced was h = elim (Option-cases (get state.stacks stack_name)) [
    | inl e ↦ absurd (cc (rw (deployment_of, e) at was))
    | inr (stack, e) ↦
        let own : stack.deployment ≡ some d = rw (deployment_of, e) at was in
        let ready = gateway_ready && not (contains unready_tcp stack_name) in
        let replaced : stack_replaced state stack d d.generation ready
              && all (is_settled state stack_name) (values state.tasks)
              && not (any (λ task. str_eq task.stack stack_name) (values state.unclaimed_tasks))
            ≡ true =
          rw (deployment_is_healthy, deployment_replacement_ready, e, own) at h in
        let parts = replaced_all stack (ground arith) in
        (
          stack,
          e,
          record {
            resolved = all-Each (λ r. is_complete r.status) (λ r k. k) _ parts.0;
            served = served_cases parts.1;
            serving =
                all-Each (replicas_healthy state d.generation)
                  (replicas_healthy-IsServing state d.generation) stack.services parts.2;
            settled =
                all-Each (is_settled state stack_name) (is_settled-IsSettled state stack_name) _
                  (ground arith);
            claimed = none_left stack_name (values state.unclaimed_tasks) (ground arith);
          },
        )
  ]

-- A deployment becomes healthy in a refresh only if its replacement is complete. Where no stack name
-- occurs twice, if an active deployment is healthy after the refresh, then the resolution of each of
-- its images has ended without an error, or was skipped, and the gateway is ready for the stack if it
-- is waited for. Every service of the stack exists and is a job or has at least as many tasks as
-- replicas that are of its revision, run, are healthy, have applied the deployment's generation and
-- have all ports published. Every task of the stack that is neither a job's nor lost is wanted at its
-- service's revision, and no unclaimed task is the stack's.
pub refresh_stack_deployments-IsReplaced :
    (now : ℕ) (gateway_ready : Bool) (unready_tcp : List Str) (state : ClusterState) (name : Str)
    (d e : StackDeploymentRecord)
    → is_distinct (keys state.stacks) ≡ true
    → deployment_of state name ≡ some d
    → is_active d.status ≡ true
    → deployment_of (refresh_stack_deployments now gateway_ready unready_tcp state).0 name ≡ some e
    → has_succeeded e.status ≡ true
    → (stack : StackRecord) × (get state.stacks name ≡ some stack)
      × IsReplaced state name stack d gateway_ready unready_tcp
refresh_stack_deployments-IsReplaced now gateway_ready unready_tcp state name d e once was active is
      ok =
    let ready =
      deployment_is_healthy state name d.generation
        (gateway_ready && not (contains unready_tcp name)) in
    let same : e ≡ refreshed now gateway_ready unready_tcp state name d =
      Option.some-injective _ _ (
        sym is
        ∙ refresh_stack_deployments_lem now gateway_ready unready_tcp state name once
        ∙ ap (Option.map (refreshed now gateway_ready unready_tcp state name)) was) in
    elim (Bool-cases ready) [
      | inl k ↦ healthy-IsReplaced state name d gateway_ready unready_tcp was k
      | inr k ↦ absurd (
          cc (
            ap (λ x. has_succeeded x.status) same,
            unhealthy now gateway_ready unready_tcp state name d active k,
          ))
    ]
