-- ===== src/Deployment/Pictured.antt =====
-- deployment.rs: reports on images, as moves of deployments.
use swarmlite.Base.{
  ℕ, ◌≡◌, refl, true, some, [], find-some, &&-true, Bool-cases, Option-cases, inl, inr, Str,
}
use swarmlite.Base.Map.{BTreeMap, get, keys, values}
use swarmlite.Cluster.{
  is_active, StackDeploymentRecord, DeploymentImageResolutionRecord, ClusterState,
}
use swarmlite.Deployment.Conditions.{deployment_of}
use swarmlite.Deployment.Images.{
  ImageResolutionProgress, ImageResolutionReport, ImageResolutionServiceReport, is_under_way,
  resolution_progressed, deploys, deploying_stack, apply_image_progress,
}
use swarmlite.Deployment.Resolved.{
  expected_of, is_empty, validation_error, reports_of, image_resolved,
  apply_image_resolution_report,
}
use swarmlite.Deployment.Moved.{Move, Moved, Moved-refl, with-Moved}

-- The stack that is found has an active deployment.
found_deployment :
    (state : ClusterState) (generation : ℕ) (n : Str)
    → deploying_stack generation state.stacks ≡ some n
    → (d : StackDeploymentRecord) × (deployment_of state n ≡ some d) × (is_active d.status ≡ true)
unfolding deploying_stack deploys deployment_of
found_deployment state generation n h =
    let found = (find-some _ (keys state.stacks) h).1 in
    elim (Option-cases (get state.stacks n)) [
      | inl e ↦ absurd (cc (rw e at found))
      | inr (stack, e) ↦ elim (Option-cases stack.deployment) [
        | inl k ↦ absurd (cc (rw (deploys, e, k) at found))
        | inr (d, k) ↦ (d, rw (deployment_of, e) k, (&&-true _ _ (rw (deploys, e, k) at found)).1)
      ]
    ]

module _ (state : ClusterState) (node_id : Str) (j : Str) where
  pub image_progress-Moved :
      (progress : ImageResolutionProgress)
      → Moved
          (deployment_of state j)
          (deployment_of (apply_image_progress state node_id progress).0 j)
  unfolding apply_image_progress
  image_progress-Moved progress = elim (Bool-cases (is_under_way progress.status)) [
    | inr u ↦ rw (apply_image_progress, u) (Moved-refl (deployment_of state j))
    | inl u ↦ elim (Option-cases (deploying_stack progress.deployment_generation state.stacks)) [
      | inl e ↦ rw (apply_image_progress, u, e) (Moved-refl (deployment_of state j))
      | inr (n, e) ↦
          let found = found_deployment state progress.deployment_generation n e in
          rw (apply_image_progress, u, e)
            (with-Moved state n _ found.0 j found.1 found.2
              (Move.images (resolution_progressed node_id progress) refl))
    ]
  ]

  resolved-Moved :
      (n id : Str) (reports : BTreeMap ImageResolutionServiceReport)
      (expected : BTreeMap DeploymentImageResolutionRecord) (d : StackDeploymentRecord)
      → deployment_of state n ≡ some d
      → is_active d.status ≡ true
      → Moved
          (deployment_of state j)
          (deployment_of (image_resolved state n node_id id reports expected d) j)
  unfolding image_resolved deployment_of
  resolved-Moved n id reports expected d found active =
      with-Moved state n _ d j found active (Move.images _ refl)

  pub image_report-Moved :
      (report : ImageResolutionReport) (now : ℕ)
      → Moved
          (deployment_of state j)
          (deployment_of (apply_image_resolution_report state node_id report now).0 j)
  unfolding apply_image_resolution_report
  image_report-Moved report now =
      let stays = Moved-refl (deployment_of state j) in
      elim (Option-cases (deploying_stack report.deployment_generation state.stacks)) [
        | inl e ↦ rw (apply_image_resolution_report, e) stays
        | inr (n, e) ↦
            let found = found_deployment state report.deployment_generation n e in
            let d = found.0 in
            let expected = expected_of node_id report.image (values d.image_resolutions) [] in
            elim (Bool-cases (is_empty expected)) [
              | inl x ↦ rw (apply_image_resolution_report, e, found.1, x) stays
              | inr x ↦ elim (Option-cases (validation_error node_id report expected)) [
                | inr (message, v) ↦
                    rw (apply_image_resolution_report, e, found.1, x, v)
                      (with-Moved state n _ d j found.1 found.2
                        (Move.image_failure node_id report.image message expected now refl))
                | inl v ↦ elim (Option-cases report.resolved_image_id) [
                  | inl r ↦ rw (apply_image_resolution_report, e, found.1, x, v, r) stays
                  | inr (id, r) ↦
                      rw (apply_image_resolution_report, e, found.1, x, v, r)
                        (resolved-Moved n id (reports_of report.services []) expected d found.1
                          found.2)
                ]
              ]
            ]
      ]
