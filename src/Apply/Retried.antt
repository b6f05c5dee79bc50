-- ===== src/Apply/Retried.antt =====
-- deployment.rs: what `retry_stack_deployment` makes of the deployment.
use swarmlite.Base.{
  ℕ, ◌≡◌, refl, sym, ap, ◌∙◌, true, false, some, List, [], ◌∷◌, map, ◌==◌, arith, any, count,
  is_none, Bool-cases, Option-cases, inl, inr, Str, str_eq_refl,
}
use swarmlite.Base.Map.{BTreeMap, get, map_values, values}
use swarmlite.Cluster.{
  StackDeploymentCondition, StackDeploymentConditionKind, StackDeploymentRecord, is_active,
  DeploymentImageResolutionRecord, ClusterState,
}
use swarmlite.Kv.Locks.{Response}
use swarmlite.Deployment.{deployment_of, is_open}
use swarmlite.Deployment.Open.{open_count}
use swarmlite.Deployment.Moves.{is_consistent, agrees}
use swarmlite.Deployment.Moved.{deployment_of-with}
use swarmlite.Apply.Plan.{u64_max}
use swarmlite.Apply.Retry.{
  can_be_retried, is_preparing, resolved_now, has_failed, retried_resolution, retried_deployment,
  retried, retry_stack_deployment,
}

open_count-resolved :
    (k : StackDeploymentConditionKind) (now : ℕ) (cs : List StackDeploymentCondition)
    → open_count k (map (resolved_now now) cs) ≡ 0
unfolding count is_open resolved_now
open_count-resolved k now [] = refl
open_count-resolved k now (c ∷ cs) = elim (Bool-cases (is_none c.resolved_at_unix_ms)) [
  | inl e ↦ rw (resolved_now, e) (ground (arith, open_count-resolved k now cs))
  | inr e ↦ rw (resolved_now, e) (ground (arith, open_count-resolved k now cs))
]

none_failed :
    (m : BTreeMap DeploymentImageResolutionRecord)
    → any (λ r. has_failed r.status) (values (map_values retried_resolution m)) ≡ false
unfolding any values map_values retried_resolution has_failed
none_failed [] = refl
none_failed ((k, r) ∷ m) = elim (Bool-cases (has_failed r.status)) [
  | inl e ↦ rw e (none_failed m)
  | inr e ↦ rw e (rw e (none_failed m))
]

retried-is_consistent :
    (now : ℕ) (d : StackDeploymentRecord) → is_consistent (retried_deployment now d) ≡ true
unfolding is_consistent agrees retried_deployment
retried-is_consistent now d = ground (
  arith,
  open_count-resolved StackDeploymentConditionKind.progress_deadline_exceeded now d.conditions,
  open_count-resolved StackDeploymentConditionKind.user_action_required now d.conditions,
)

-- The state of an answer.
answer : ClusterState → Response ClusterState → ClusterState
answer default (Response.ok s) = s
answer default (Response.err e) = default

deployment_after :
    (state after : ClusterState) (stack_name : Str) (ids : List Str) (d : StackDeploymentRecord)
    (now : ℕ)
    → deployment_of state stack_name ≡ some d
    → Response.ok (retried state stack_name ids d.generation now) ≡ Response.ok after
    → deployment_of after stack_name ≡ some (retried_deployment now d)
unfolding retried answer deployment_of
deployment_after state after stack_name ids d now found h =
    ap (λ r. deployment_of (answer state r) stack_name) (sym h)
    ∙ deployment_of-with state stack_name stack_name (retried_deployment now)
    ∙ rw (str_eq_refl stack_name, found) refl

-- A deployment is retried only if it has stalled, is blocked or has failed; it keeps its generation,
-- is active and consistent afterwards, and it has no errors and no failed image resolution.
pub retry_stack_deployment-is_consistent :
    (state after : ClusterState) (stack_name : Str) (now_unix_ms : ℕ)
    → retry_stack_deployment state stack_name now_unix_ms ≡ Response.ok after
    → (d : StackDeploymentRecord) × (e : StackDeploymentRecord) × (deployment_of state stack_name
        ≡ some d)
      × (deployment_of after stack_name ≡ some e)
      × (can_be_retried d.status ≡ true)
      × (e.generation ≡ d.generation)
      × (is_active e.status ≡ true)
      × (is_consistent e ≡ true)
      × (e.errors ≡ [])
      × (any (λ r. has_failed r.status) (values e.image_resolutions) ≡ false)
unfolding retry_stack_deployment retried_deployment
retry_stack_deployment-is_consistent state after stack_name now_unix_ms h =
    elim (Bool-cases (any (is_preparing stack_name) (values state.service_operations))) [
      | inl p ↦ absurd (cc (rw p at h))
      | inr p ↦ elim (Option-cases (get state.stacks stack_name)) [
        | inl s ↦ absurd (cc (rw (retry_stack_deployment, p, s) at h))
        | inr (stack, s) ↦ elim (Option-cases (deployment_of state stack_name)) [
          | inl f ↦ absurd (cc (rw (retry_stack_deployment, p, s, f) at h))
          | inr (d, f) ↦ elim (Bool-cases (can_be_retried d.status)) [
            | inr c ↦ absurd (cc (rw (retry_stack_deployment, p, s, f, c) at h))
            | inl c ↦ elim (Bool-cases (d.retry_revision == u64_max)) [
              | inl m ↦ absurd (cc (rw (retry_stack_deployment, p, s, f, c, m) at h))
              | inr m ↦ (
                d,
                retried_deployment now_unix_ms d,
                f,
                deployment_after state after stack_name stack.services d now_unix_ms f
                    (rw (retry_stack_deployment, p, s, f, c, m) at h),
                c,
                refl,
                refl,
                retried-is_consistent now_unix_ms d,
                refl,
                none_failed d.image_resolutions,
              )
            ]
          ]
        ]
      ]
    ]
