-- ===== src/Deployment/Identity.antt =====
-- deployment.rs: what no move of a deployment changes, the generation and the snapshot.
use swarmlite.Base.{ℕ, ◌≡◌, refl, ap, ◌∙◌, any, List, [], ◌∷◌, Bool-cases, inl, inr, Str, ltb}
use swarmlite.Cluster.{
  StackDeploymentError, StackDeploymentRecord, StackDeploymentSnapshot, is_active,
  DeploymentImageResolutionRecord,
}
use swarmlite.Deployment.Conditions.{
  set_deployment_condition, resolve_deployment_condition, deployment_error_requires_user,
}
use swarmlite.Deployment.Refresh.{becomes_healthy, becomes_stalled, is_stalled, progressed}
use swarmlite.Deployment.Report.{record_error, push_error, same_error}
use swarmlite.Deployment.Resolved.{image_failed, push_image_errors}
use swarmlite.Deployment.Moved.{Move, Moves}

abbrev pub identity : StackDeploymentRecord → ℕ × StackDeploymentSnapshot
identity d = (d.generation, d.snapshot)

identity-push_error :
    (error : StackDeploymentError) (d : StackDeploymentRecord)
    → identity (push_error error d) ≡ identity d
unfolding push_error
identity-push_error error d = elim (Bool-cases (any (same_error error) d.errors)) [
  | inl k ↦ rw (push_error, k) refl
  | inr k ↦ rw (push_error, k) refl
]

identity-push_image_errors :
    (node_id image message : Str) (rs : List DeploymentImageResolutionRecord)
    (d : StackDeploymentRecord)
    → identity (push_image_errors node_id image message rs d) ≡ identity d
unfolding push_image_errors
identity-push_image_errors node_id image message [] d = refl
identity-push_image_errors node_id image message (r ∷ rs) d =
    identity-push_image_errors node_id image message rs _ ∙ identity-push_error _ d

identity-progressed :
    (now : ℕ) (d : StackDeploymentRecord) → identity (progressed now d) ≡ identity d
unfolding progressed resolve_deployment_condition
identity-progressed now d = elim (Bool-cases (ltb d.last_progress_at_unix_ms now)) [
  | inl k ↦ elim (Bool-cases (is_stalled d.status)) [
    | inl s ↦ rw (progressed, k, s) refl
    | inr s ↦ rw (progressed, k, s) refl
  ]
  | inr k ↦ elim (Bool-cases (is_stalled d.status)) [
    | inl s ↦ rw (progressed, k, s) refl
    | inr s ↦ rw (progressed, k, s) refl
  ]
]

identity-record_error :
    (now : ℕ) (reason : Str) (error : StackDeploymentError) (d : StackDeploymentRecord)
    → identity (record_error now reason error d) ≡ identity d
unfolding record_error set_deployment_condition
identity-record_error now reason error d = elim (Bool-cases (is_active d.status)) [
  | inr a ↦ rw (record_error, a) (identity-push_error error d)
  | inl a ↦ elim (Bool-cases (deployment_error_requires_user error.message)) [
    | inl u ↦ rw (record_error, a, u) (identity-push_error error d)
    | inr u ↦ rw (record_error, a, u) (identity-push_error error d)
  ]
]

identity-Move : {d e : StackDeploymentRecord} → Move d e → identity e ≡ identity d
unfolding becomes_healthy becomes_stalled set_deployment_condition resolve_deployment_condition
    image_failed
identity-Move (Move.healthy now p) = ap identity p
identity-Move (Move.stalled now p) = ap identity p
identity-Move (Move.progress now p) = ap identity p ∙ identity-progressed now _
identity-Move (Move.failed now reason error p) =
    ap identity p ∙ identity-record_error now reason error _
identity-Move (Move.images f p) = ap identity p
identity-Move (Move.image_failure node_id image message expected now p) =
    ap identity p ∙ elim (Bool-cases (deployment_error_requires_user message)) [
      | inl u ↦ rw (image_failed, u) (identity-push_image_errors node_id image message _ _)
      | inr u ↦ rw (image_failed, u) (identity-push_image_errors node_id image message _ _)
    ]

pub identity-Moves : {d e : StackDeploymentRecord} → Moves d e → identity e ≡ identity d
identity-Moves Moves.done = refl
identity-Moves (Moves.and_then active m ms) = identity-Moves ms ∙ identity-Move m
