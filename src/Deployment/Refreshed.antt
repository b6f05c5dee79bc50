-- ===== src/Deployment/Refreshed.antt =====
-- deployment.rs: a refresh and a mark of progress, as moves of deployments.
use mathlib.Core.Option
use swarmlite.Base.{
  ℕ, ◌≡◌, refl, sym, Bool, true, some, List, [], ◌∷◌, ◌&&◌, not, ◌==◌, &&-true, Bool-cases,
  Option-cases, inl, inr, Str,
}
use swarmlite.Cluster.{is_terminal, is_active, StackDeploymentRecord, ClusterState}
use swarmlite.Scheduler.Ports.{contains}
use swarmlite.Deployment.Conditions.{deployment_of}
use swarmlite.Deployment.Refresh.{
  progressed, is_overdue, next_deployment, refresh_stack_deployment, refresh_each,
  mark_deployment_progress,
}
use swarmlite.Deployment.Ready.{deployment_is_healthy}
use swarmlite.Deployment.Moved.{Move, Moved, Moved-refl, Moved-trans, with-Moved}

module _ (now : ℕ) (gateway_ready : Bool) (unready_tcp : List Str) where
  next-Move :
      (ok : Bool) (d e : StackDeploymentRecord)
      → next_deployment now ok d ≡ some e
      → (is_active d.status ≡ true) × Move d e
  unfolding next_deployment
  next-Move ok d e h = elim (Bool-cases (is_terminal d.status)) [
    | inl t ↦ absurd (cc (rw t at h))
    | inr t ↦ (
      rw t refl,
      elim (Bool-cases ok) [
        | inl k ↦ Move.healthy now (sym (Option.some-injective _ _ (rw (t, k) at h)))
        | inr k ↦ elim (Bool-cases (is_overdue now d)) [
          | inl l ↦ Move.stalled now (sym (Option.some-injective _ _ (rw (t, k, l) at h)))
          | inr l ↦ absurd (cc (rw (t, k, l) at h))
        ]
      ],
    )
  ]

  refresh_one-Moved :
      (state : ClusterState) (n j : Str)
      → Moved
          (deployment_of state j)
          (deployment_of (refresh_stack_deployment now gateway_ready unready_tcp state n).0 j)
  unfolding refresh_stack_deployment
  refresh_one-Moved state n j = elim (Option-cases (deployment_of state n)) [
    | inl e ↦ rw (refresh_stack_deployment, e) (Moved-refl (deployment_of state j))
    | inr (d, e) ↦
        let ok =
          deployment_is_healthy state n d.generation
            (gateway_ready && not (contains unready_tcp n)) in
        elim (Option-cases (next_deployment now ok d)) [
          | inl k ↦ rw (refresh_stack_deployment, e, k) (Moved-refl (deployment_of state j))
          | inr (next, k) ↦
              let m = next-Move ok d next k in
              rw (refresh_stack_deployment, e, k) (with-Moved state n (λ d'. next) d j e m.0 m.1)
        ]
  ]

  pub refresh_each-Moved :
      (names : List Str) (state : ClusterState) (j : Str)
      → Moved
          (deployment_of state j)
          (deployment_of (refresh_each now gateway_ready unready_tcp state names).0 j)
  unfolding refresh_each
  refresh_each-Moved [] state j = Moved-refl (deployment_of state j)
  refresh_each-Moved (n ∷ names) state j = Moved-trans (refresh_one-Moved state n j) (
      refresh_each-Moved names (refresh_stack_deployment now gateway_ready unready_tcp state n).0 j)

pub progress-Moved :
    (state : ClusterState) (n : Str) (generation now : ℕ) (j : Str)
    → Moved
        (deployment_of state j)
        (deployment_of (mark_deployment_progress state n generation now).0 j)
unfolding mark_deployment_progress
progress-Moved state n generation now j = elim (Option-cases (deployment_of state n)) [
  | inl e ↦ rw (mark_deployment_progress, e) (Moved-refl (deployment_of state j))
  | inr (d, e) ↦ elim (Bool-cases (d.generation == generation && is_active d.status)) [
    | inl k ↦
        rw (mark_deployment_progress, e, k)
          (with-Moved state n (progressed now) d j e (&&-true _ _ k).1 (Move.progress now refl))
    | inr k ↦ rw (mark_deployment_progress, e, k) (Moved-refl (deployment_of state j))
  ]
]
