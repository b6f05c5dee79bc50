-- ===== src/Deployment/Reported.antt =====
-- deployment.rs: reports on tasks and on images, as moves of deployments.
use swarmlite.Base.{
  ℕ, ◌≡◌, refl, false, some, ◌&&◌, not, ◌==◌, Bool-cases, Option-cases, inl, inr, Str, str_eq,
  codes,
}
use swarmlite.Base.Map.{BTreeMap, get, update}
use swarmlite.Cluster.{
  is_terminal, StackDeploymentError, StackDeploymentRecord, TaskRecord, ClusterState,
}
use swarmlite.Deployment.Conditions.{with_deployment, deployment_of}
use swarmlite.Deployment.Report.{
  TaskReconcileReport, record_error, apply_task_result, apply_unclaimed_task_result, error_of,
  is_refused, reported, is_remove,
}
use swarmlite.Deployment.Moved.{Move, Moved, Moved-refl, with-Moved}

-- A report that is left aside.
module _ (state : ClusterState) (node_id : Str) (report : TaskReconcileReport) (now : ℕ)
    (j : Str) where
  error-Moved :
      (tasks : BTreeMap TaskRecord) (n : Str) (d : StackDeploymentRecord)
      (error : StackDeploymentError)
      → deployment_of state n ≡ some d
      → is_terminal d.status ≡ false
      → Moved (deployment_of state j) (
          deployment_of
            (with_deployment
              (record state { tasks = tasks })
              n
              (record_error now (codes "runtime_dependency") error))
            j)
  unfolding deployment_of
  error-Moved tasks n d error e t =
      with-Moved (record state { tasks = tasks }) n
        (record_error now (codes "runtime_dependency") error) d j e (rw t refl)
        (Move.failed now (codes "runtime_dependency") error refl)

  pub unclaimed-Moved :
      Moved
        (deployment_of state j)
        (deployment_of (apply_unclaimed_task_result state node_id report now).0 j)
  unfolding apply_unclaimed_task_result
  unclaimed-Moved = elim (Option-cases (get state.unclaimed_tasks report.task_id)) [
    | inl e ↦ rw (apply_unclaimed_task_result, e) (Moved-refl (deployment_of state j))
    | inr (task, e) ↦ elim (Bool-cases (str_eq task.node_id node_id)) [
      | inr k ↦ rw (apply_unclaimed_task_result, e, k) (Moved-refl (deployment_of state j))
      | inl k ↦ elim (Option-cases (deployment_of state task.stack)) [
        | inl l ↦ rw (apply_unclaimed_task_result, e, k, l) (Moved-refl (deployment_of state j))
        | inr (d, l) ↦ elim (Bool-cases (is_refused report d)) [
          | inl r ↦
              rw (apply_unclaimed_task_result, e, k, l, r) (Moved-refl (deployment_of state j))
          | inr r ↦ elim (Option-cases report.error) [
            | inl x ↦
                rw (apply_unclaimed_task_result, e, k, l, r, x) (Moved-refl (deployment_of state j))
            | inr (message, x) ↦ elim (Bool-cases (is_terminal d.status)) [
              | inl t ↦
                  rw (apply_unclaimed_task_result, e, k, l, r, x, t)
                    (Moved-refl (deployment_of state j))
              | inr t ↦
                  rw (apply_unclaimed_task_result, e, k, l, r, x, t)
                    (error-Moved state.tasks task.stack d
                      (error_of report task.service node_id message) l t)
            ]
          ]
        ]
      ]
    ]
  ]

  -- The tasks have changed and the deployments have not.
  noted-Moved :
      (tasks : BTreeMap TaskRecord)
      → Moved (deployment_of state j) (deployment_of (record state { tasks = tasks }) j)
  unfolding deployment_of
  noted-Moved tasks = Moved-refl (deployment_of state j)

  pub task-Moved :
      Moved (deployment_of state j) (deployment_of (apply_task_result state node_id report now).0 j)
  unfolding apply_task_result
  task-Moved =
      let stays = Moved-refl (deployment_of state j) in
      let noted = noted-Moved (update report.task_id (reported report) state.tasks) in
      elim (Option-cases (get state.tasks report.task_id)) [
        | inl e ↦ rw (apply_task_result, e) unclaimed-Moved
        | inr (task, e) ↦ elim (Bool-cases (str_eq task.node_id node_id)) [
          | inr k ↦ rw (apply_task_result, e, k) stays
          | inl k ↦ elim (Option-cases (get state.services task.service_id)) [
            | inl s ↦ rw (apply_task_result, e, k, s) stays
            | inr (service, s) ↦ elim (Option-cases (deployment_of state service.stack)) [
              | inl l ↦ rw (apply_task_result, e, k, s, l) stays
              | inr (d, l) ↦ elim (Bool-cases (is_refused report d)) [
                | inl r ↦ rw (apply_task_result, e, k, s, l, r) stays
                | inr r ↦ elim (Option-cases report.error) [
                  | inl x ↦ rw (apply_task_result, e, k, s, l, r, x) noted
                  | inr (message, x) ↦
                      elim (Bool-cases
                        (not (task.revision == service.revision) && not (is_remove report.phase))) [
                          | inl o ↦ rw (apply_task_result, e, k, s, l, r, x, o) noted
                          | inr o ↦ elim (Bool-cases (is_terminal d.status)) [
                            | inl t ↦ rw (apply_task_result, e, k, s, l, r, x, o, t) noted
                            | inr t ↦
                                rw (apply_task_result, e, k, s, l, r, x, o, t)
                                  (error-Moved (update report.task_id (reported report) state.tasks)
                                    service.stack d (error_of report service.name node_id message) l
                                    t)
                          ]
                        ]
                ]
              ]
            ]
          ]
        ]
      ]
