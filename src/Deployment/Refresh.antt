-- ===== src/Deployment/Refresh.antt =====
-- deployment.rs: `refresh_stack_deployments` and `mark_deployment_progress`.
use swarmlite.Base.{
  ℕ, ◌+◌, ◌*◌, min, Bool, true, false, Option, none, some, List, [], ◌∷◌, ◌++◌, ◌&&◌, ◌||◌, not,
  if◌then◌else◌, ltb, leb, ◌==◌, Str, codes,
}
use swarmlite.Base.Map.{keys}
use swarmlite.Cluster.{
  StackDeploymentStatus, is_terminal, is_active, StackDeploymentConditionKind,
  StackDeploymentRecord, ClusterState,
}
use swarmlite.Gateway.PortKey.{decimal_on}
use swarmlite.Scheduler.Ports.{contains}
use swarmlite.Deployment.Conditions.{
  set_deployment_condition, resolve_deployment_condition, with_deployment, deployment_of,
}
use swarmlite.Deployment.Ready.{deployment_is_healthy}

abbrev pub is_stalled : StackDeploymentStatus → Bool
is_stalled StackDeploymentStatus.stalled = true
is_stalled _ = false

-- The text of an unsigned number below 2 ^ 64, which has at most twenty digits.
unfoldable pub u64_text : ℕ → Str
u64_text n = decimal_on 20 n []

unfoldable pub stall_message : (progress_deadline_seconds : ℕ) → Str
stall_message seconds =
    codes "deployment made no observable progress for " ++ u64_text seconds ++ codes " seconds"

-- `i64::try_from(seconds.saturating_mul(1_000)).unwrap_or(i64::MAX)`.
unfoldable pub timeout_ms : (progress_deadline_seconds : ℕ) → ℕ
timeout_ms seconds = min (min (seconds * 1000) 0xffffffffffffffff) 0x7fffffffffffffff

unfoldable pub becomes_healthy : (now_unix_ms : ℕ) → StackDeploymentRecord → StackDeploymentRecord
becomes_healthy now_unix_ms deployment =
    let healthy : StackDeploymentRecord = record deployment {
      status = StackDeploymentStatus.healthy;
    } in
    record (resolve_deployment_condition
      (resolve_deployment_condition healthy StackDeploymentConditionKind.progress_deadline_exceeded
        now_unix_ms)
      StackDeploymentConditionKind.user_action_required now_unix_ms) {
        finished_at_unix_ms = some now_unix_ms;
      }

unfoldable pub becomes_stalled : (now_unix_ms : ℕ) → StackDeploymentRecord → StackDeploymentRecord
becomes_stalled now_unix_ms deployment =
    set_deployment_condition (record deployment { status = StackDeploymentStatus.stalled })
      StackDeploymentConditionKind.progress_deadline_exceeded now_unix_ms (codes "no_progress")
      (stall_message deployment.progress_deadline_seconds)

-- The deadline has passed without progress.
unfoldable pub is_overdue : (now_unix_ms : ℕ) → StackDeploymentRecord → Bool
is_overdue now_unix_ms deployment =
    leb (deployment.last_progress_at_unix_ms + timeout_ms deployment.progress_deadline_seconds)
      now_unix_ms
    && not (is_stalled deployment.status)

-- What becomes of an active deployment; `none` if it stays.
unfoldable pub next_deployment :
    (now_unix_ms : ℕ) → (healthy : Bool) → StackDeploymentRecord → Option StackDeploymentRecord
next_deployment now_unix_ms healthy deployment =
    if is_terminal deployment.status
    then none
    else if healthy
    then some (becomes_healthy now_unix_ms deployment)
    else if is_overdue now_unix_ms deployment
    then some (becomes_stalled now_unix_ms deployment)
    else none

module _ (now_unix_ms : ℕ) (gateway_ready : Bool) (unready_tcp : List Str) where
  unfoldable pub refresh_stack_deployment : ClusterState → Str → ClusterState × Bool
  refresh_stack_deployment state stack_name = elim (deployment_of state stack_name) [
    | none ↦ (state, false)
    | some deployment ↦
        let healthy =
          deployment_is_healthy state stack_name deployment.generation
            (gateway_ready && not (contains unready_tcp stack_name)) in
        elim (next_deployment now_unix_ms healthy deployment) [
          | none ↦ (state, false)
          | some next ↦ (with_deployment state stack_name (λ d. next), true)
        ]
  ]

  unfoldable pub refresh_each : ClusterState → List Str → ClusterState × Bool
  refresh_each state [] = (state, false)
  refresh_each state (name ∷ names) =
      let (next, changed) = refresh_stack_deployment state name in
      let (final, later) = refresh_each next names in (final, changed || later)

  unfoldable pub refresh_stack_deployments : ClusterState → ClusterState × Bool
  refresh_stack_deployments state = refresh_each state (keys state.stacks)

-- The deployment of the stack if it has the generation and is active.
unfoldable pub progressed :
    (progress_at_unix_ms : ℕ) → StackDeploymentRecord → StackDeploymentRecord
progressed progress_at_unix_ms deployment =
    let moved : StackDeploymentRecord =
      (if ltb deployment.last_progress_at_unix_ms progress_at_unix_ms
        then record deployment { last_progress_at_unix_ms = progress_at_unix_ms }
        else deployment) in
    if is_stalled deployment.status
    then resolve_deployment_condition
        (record moved { status = StackDeploymentStatus.reconciling; finished_at_unix_ms = none })
        StackDeploymentConditionKind.progress_deadline_exceeded progress_at_unix_ms
    else moved

unfoldable pub makes_progress : (progress_at_unix_ms : ℕ) → StackDeploymentRecord → Bool
makes_progress progress_at_unix_ms deployment =
    ltb deployment.last_progress_at_unix_ms progress_at_unix_ms || is_stalled deployment.status

unfoldable pub mark_deployment_progress :
    ClusterState → (stack_name : Str) → (generation progress_at_unix_ms : ℕ) → ClusterState × Bool
mark_deployment_progress state stack_name generation progress_at_unix_ms =
    elim (deployment_of state stack_name) [
      | none ↦ (state, false)
      | some deployment ↦
          if deployment.generation == generation && is_active deployment.status
          then (
            with_deployment state stack_name (progressed progress_at_unix_ms),
            makes_progress progress_at_unix_ms deployment,
          )
          else (state, false)
    ]
