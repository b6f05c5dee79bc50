-- ===== src/Deployment/Moves.antt =====
-- deployment.rs: what the functions of this file make of an active deployment, and what stays true
-- of it.
use swarmlite.Base.{
  ℕ, ◌+◌, ◌≡◌, refl, ◌∙◌, Bool, true, false, List, [], ◌∷◌, map, ◌&&◌, not, if◌then◌else◌, ◌==◌,
  ltb, leb, arith, any, is_some, Bool-cases, inl, inr, Str, codes,
}
use swarmlite.Base.Map.{BTreeMap}
use swarmlite.Cluster.{
  StackDeploymentStatus, is_terminal, is_active, StackDeploymentConditionKind, StackDeploymentError,
  StackDeploymentRecord, DeploymentImageResolutionRecord,
}
use swarmlite.Deployment.Conditions.{
  same_kind, resolve_condition, set_condition, set_deployment_condition,
  resolve_deployment_condition, deployment_error_requires_user,
}
use swarmlite.Deployment.Open.{open_count, open_count-set_condition, open_count-resolve_condition}
use swarmlite.Deployment.Refresh.{
  becomes_healthy, becomes_stalled, is_stalled, progressed, stall_message,
}
use swarmlite.Deployment.Report.{record_error, push_error, same_error}
use swarmlite.Deployment.Resolved.{image_failed, push_image_errors}

abbrev overdue : StackDeploymentConditionKind
overdue = StackDeploymentConditionKind.progress_deadline_exceeded

abbrev action : StackDeploymentConditionKind
action = StackDeploymentConditionKind.user_action_required

abbrev pub is_blocked : StackDeploymentStatus → Bool
is_blocked StackDeploymentStatus.blocked = true
is_blocked _ = false

abbrev pub has_succeeded : StackDeploymentStatus → Bool
has_succeeded StackDeploymentStatus.healthy = true
has_succeeded _ = false

-- The status agrees with the open conditions and with the time of the end.
unfoldable pub agrees :
    StackDeploymentStatus → (overdue_open action_open : ℕ) → (finished : Bool) → Bool
agrees status overdue_open action_open finished =
    leb overdue_open 1
    && leb action_open 1
    && (if is_stalled status then overdue_open == 1 else true)
    && (if is_blocked status then action_open == 1 else true)
    && (if has_succeeded status then overdue_open + action_open == 0 else true)
    && (if is_terminal status then finished else not finished)

-- Of each kind at most one condition is open; a stalled deployment has an open one for its
-- deadline, a blocked one for the user, a healthy one none; and the deployment has a time of its end
-- exactly if its status is terminal.
unfoldable pub is_consistent : StackDeploymentRecord → Bool
is_consistent d =
    agrees d.status (open_count overdue d.conditions) (open_count action d.conditions)
      (is_some d.finished_at_unix_ms)

push_error-conditions :
    (error : StackDeploymentError) (d : StackDeploymentRecord)
    → (push_error error d).conditions ≡ d.conditions
unfolding push_error
push_error-conditions error d = elim (Bool-cases (any (same_error error) d.errors)) [
  | inl k ↦ rw (push_error, k) refl
  | inr k ↦ rw (push_error, k) refl
]

push_image_errors-conditions :
    (node_id image message : Str) (rs : List DeploymentImageResolutionRecord)
    (d : StackDeploymentRecord)
    → (push_image_errors node_id image message rs d).conditions ≡ d.conditions
unfolding push_image_errors
push_image_errors-conditions node_id image message [] d = refl
push_image_errors-conditions node_id image message (r ∷ rs) d =
    push_image_errors-conditions node_id image message rs _ ∙ push_error-conditions _ d

module _ (now : ℕ) (d : StackDeploymentRecord) where
  pub becomes_healthy-is_consistent : is_consistent (becomes_healthy now d) ≡ true
  unfolding is_consistent agrees becomes_healthy resolve_deployment_condition same_kind
  becomes_healthy-is_consistent =
      let first = map (resolve_condition overdue now) d.conditions in
      ground (
        arith,
        open_count-resolve_condition overdue action now first,
        open_count-resolve_condition action action now first,
        open_count-resolve_condition overdue overdue now d.conditions,
      )

  pub becomes_stalled-is_consistent :
      is_active d.status ≡ true
      → is_consistent d ≡ true
      → is_consistent (becomes_stalled now d) ≡ true
  unfolding is_consistent agrees becomes_stalled set_deployment_condition same_kind
  becomes_stalled-is_consistent active h =
      let message = stall_message d.progress_deadline_seconds in
      ground (
        arith,
        open_count-set_condition overdue overdue now (codes "no_progress") message d.conditions,
        open_count-set_condition action overdue now (codes "no_progress") message d.conditions,
      )

  pub progressed-is_consistent : is_consistent d ≡ true → is_consistent (progressed now d) ≡ true
  unfolding is_consistent agrees progressed resolve_deployment_condition same_kind
  progressed-is_consistent h = elim (Bool-cases (is_stalled d.status)) [
    | inl e ↦
        rw (progressed, e)
          (ground (
            arith,
            open_count-resolve_condition overdue overdue now d.conditions,
            open_count-resolve_condition action overdue now d.conditions,
          ))
    | inr e ↦
        rw (progressed, e)
          (elim (Bool-cases (ltb d.last_progress_at_unix_ms now)) [
            | inl k ↦ rw k h
            | inr k ↦ rw k h
          ])
  ]

  -- A deployment that waits for the user, and one that has failed.
  blocked_agrees :
      (reason message : Str)
      → is_consistent d ≡ true
      → let cs = set_condition action now reason message d.conditions in
        agrees StackDeploymentStatus.blocked (open_count overdue cs) (open_count action cs) false
        ≡ true
  unfolding is_consistent agrees same_kind
  blocked_agrees reason message h = ground (
    arith,
    open_count-set_condition overdue action now reason message d.conditions,
    open_count-set_condition action action now reason message d.conditions,
  )

  failed_agrees :
      is_consistent d ≡ true
      → agrees StackDeploymentStatus.failed
          (open_count overdue d.conditions)
          (open_count action d.conditions)
          true
        ≡ true
  unfolding is_consistent agrees
  failed_agrees h = ground arith

  pub record_error-is_consistent :
      (reason : Str) (error : StackDeploymentError)
      → is_active d.status ≡ true
      → is_consistent d ≡ true
      → is_consistent (record_error now reason error d) ≡ true
  unfolding is_consistent record_error push_error set_deployment_condition
  record_error-is_consistent reason error active h =
      elim (Bool-cases (any (same_error error) d.errors)) [
        | inl k ↦ elim (Bool-cases (deployment_error_requires_user error.message)) [
          | inl u ↦
              rw (record_error, push_error, k, active, u) (blocked_agrees reason error.message h)
          | inr u ↦ rw (record_error, push_error, k, active, u) (failed_agrees h)
        ]
        | inr k ↦ elim (Bool-cases (deployment_error_requires_user error.message)) [
          | inl u ↦
              rw (record_error, push_error, k, active, u) (blocked_agrees reason error.message h)
          | inr u ↦ rw (record_error, push_error, k, active, u) (failed_agrees h)
        ]
      ]

  pub image_failed-is_consistent :
      (node_id image message : Str) (expected : BTreeMap DeploymentImageResolutionRecord)
      → is_consistent d ≡ true
      → is_consistent (image_failed node_id image message expected now d) ≡ true
  unfolding is_consistent image_failed set_deployment_condition
  image_failed-is_consistent node_id image message expected h =
      elim (Bool-cases (deployment_error_requires_user message)) [
        | inl u ↦
            rw (image_failed, u, push_image_errors-conditions)
              (blocked_agrees (codes "image_pull_dependency") message h)
        | inr u ↦ rw (image_failed, u, push_image_errors-conditions) (failed_agrees h)
      ]
