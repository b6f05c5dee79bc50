-- ===== src/Deployment/Steps.antt =====
-- deployment.rs: the functions that change deployments, as steps of the cluster, in any order.
use mathlib.Core.Option
use swarmlite.Base.{ℕ, ◌≡◌, refl, ap, subst, ◌∙◌, Bool, true, Option, some, List, Str}
use swarmlite.Cluster.{is_terminal, StackDeploymentRecord, ClusterState}
use swarmlite.Deployment.Conditions.{deployment_of}
use swarmlite.Deployment.Refresh.{refresh_stack_deployments, mark_deployment_progress}
use swarmlite.Deployment.Report.{TaskReconcileReport, apply_task_result}
use swarmlite.Deployment.Images.{
  ImageResolutionProgress, ImageResolutionReport, apply_image_progress,
}
use swarmlite.Deployment.Resolved.{apply_image_resolution_report}
use swarmlite.Deployment.Moves.{is_consistent}
use swarmlite.Deployment.Moved.{
  Moves, Moved, Moved-refl, Moved-trans, Moves-is_consistent, Moves-terminal,
}
use swarmlite.Deployment.Refreshed.{refresh_each-Moved, progress-Moved}
use swarmlite.Deployment.Reported.{task-Moved}
use swarmlite.Deployment.Pictured.{image_progress-Moved, image_report-Moved}
use swarmlite.Deployment.Identity.{identity, identity-Moves}

pub data Step (s t : ClusterState) : Type 0 where
  refreshed :
      (now : ℕ) (gateway_ready : Bool) (unready_tcp : List Str)
      → t ≡ (refresh_stack_deployments now gateway_ready unready_tcp s).0
      → Step s t
  progressed :
      (stack_name : Str) (generation now : ℕ)
      → t ≡ (mark_deployment_progress s stack_name generation now).0
      → Step s t
  task_reported :
      (node_id : Str) (report : TaskReconcileReport) (now : ℕ)
      → t ≡ (apply_task_result s node_id report now).0
      → Step s t
  image_progressed :
      (node_id : Str) (progress : ImageResolutionProgress)
      → t ≡ (apply_image_progress s node_id progress).0
      → Step s t
  image_reported :
      (node_id : Str) (report : ImageResolutionReport) (now : ℕ)
      → t ≡ (apply_image_resolution_report s node_id report now).0
      → Step s t

pub data Steps : ClusterState → ClusterState → Type 0 where
  done : {s : ClusterState} → Steps s s
  and_then : {s t u : ClusterState} → Step s t → Steps t u → Steps s u

Step-Moved :
    {s t : ClusterState} → Step s t → (j : Str) → Moved (deployment_of s j) (deployment_of t j)
unfolding refresh_stack_deployments
Step-Moved {s} (Step.refreshed now ready unready p) j =
    rw p (refresh_each-Moved now ready unready _ s j)
Step-Moved {s} (Step.progressed n generation now p) j = rw p (progress-Moved s n generation now j)
Step-Moved {s} (Step.task_reported node_id report now p) j =
    rw p (task-Moved s node_id report now j)
Step-Moved {s} (Step.image_progressed node_id progress p) j =
    rw p (image_progress-Moved s node_id j progress)
Step-Moved {s} (Step.image_reported node_id report now p) j =
    rw p (image_report-Moved s node_id j report now)

Steps-Moved :
    {s t : ClusterState} → Steps s t → (j : Str) → Moved (deployment_of s j) (deployment_of t j)
Steps-Moved {s} Steps.done j = Moved-refl (deployment_of s j)
Steps-Moved (Steps.and_then p ps) j = Moved-trans (Step-Moved p j) (Steps-Moved ps j)

Moved-some :
    (o p : Option StackDeploymentRecord) (d : StackDeploymentRecord)
    → o ≡ some d
    → Moved o p
    → (e : StackDeploymentRecord) × (p ≡ some e) × Moves d e
Moved-some o p d h Moved.absent = absurd (cc h)
Moved-some o p d h (Moved.present {d = d'} {e} ms) =
    (e, refl, subst (λ x. Moves x e) (Option.some-injective d' d h) ms)

-- Whatever refreshes, marks of progress and reports of tasks and images come, in whatever order, a
-- deployment that has succeeded, failed or been superseded stays exactly as it is.
pub Steps-terminal :
    (s t : ClusterState) (steps : Steps s t) (name : Str) (d : StackDeploymentRecord)
    → deployment_of s name ≡ some d
    → is_terminal d.status ≡ true
    → deployment_of t name ≡ some d
Steps-terminal s t steps name d was over =
    let after = Moved-some _ _ d was (Steps-Moved steps name) in
    after.1 ∙ ap some (Moves-terminal after.2 over)

-- Whatever refreshes, marks of progress and reports of tasks and images come, in whatever order, a
-- consistent deployment stays in place with its generation and its snapshot, and is consistent: of
-- each kind at most one condition is open, a stalled deployment has an open condition for its
-- deadline, a blocked one for the user, a healthy one none, and exactly a deployment whose status is
-- terminal has a time of its end.
pub Steps-is_consistent :
    (s t : ClusterState) (steps : Steps s t) (name : Str) (d : StackDeploymentRecord)
    → deployment_of s name ≡ some d
    → is_consistent d ≡ true
    → (e : StackDeploymentRecord) × (deployment_of t name ≡ some e)
      × (identity e ≡ identity d)
      × (is_consistent e ≡ true)
Steps-is_consistent s t steps name d was good =
    let after = Moved-some _ _ d was (Steps-Moved steps name) in
    (after.0, after.1, identity-Moves after.2, Moves-is_consistent after.2 good)
