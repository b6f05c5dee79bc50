-- ===== src/Deployment/Tests.antt =====
-- A stack in the middle of a deployment, and the theorems at it.
use mathlib.Core.Option
use swarmlite.Base.{
  ℕ, ◌≡◌, refl, true, false, Option, none, some, [], ◌∷◌, any, all, count, codes, str_eq,
}
use swarmlite.Base.Map.{get, keys, update, values}
use swarmlite.Base.Scan.{split_once, strip_prefix}
use swarmlite.Scheduler.Samples.{binding, service, task, updating}
use swarmlite.Cluster.{
  GatewayTlsMode, GatewayHttpMode, StackGatewaySpec, ObservedTaskState, StackDeploymentStatus,
  StackDeploymentRecord, StackRecord, TaskReconcilePhase, TaskRecord, ClusterState,
}
use swarmlite.Deployment.Conditions.{
  deployment_of, with_deployment, resolve_deployment_condition, deployment_error_requires_user,
  needles, to_ascii_lowercase,
}
use swarmlite.Deployment.Ready.{
  is_applied, replicas_healthy, stack_replaced, deployment_replacement_ready, is_settled,
  is_current, deployment_is_healthy,
}
use swarmlite.Deployment.Refresh.{
  refresh_stack_deployments, refresh_each, refresh_stack_deployment, next_deployment,
  becomes_healthy, is_overdue, timeout_ms,
}
use swarmlite.Deployment.Report.{TaskReconcileReport, apply_task_result}
use swarmlite.Deployment.Moves.{is_consistent, agrees}
use swarmlite.Deployment.Identity.{identity}
use swarmlite.Deployment.Steps.{Step, Steps, Steps-terminal, Steps-is_consistent}
use swarmlite.Deployment.Replaced.{IsReplaced, refresh_stack_deployments-IsReplaced}
use swarmlite.Deployment.Judged.{is_distinct, refreshed, refresh_stack_deployments_lem}

abbrev no_routes : StackGatewaySpec
no_routes = record {
  tls = GatewayTlsMode.serve;
  http = GatewayHttpMode.redirect;
  trusted_proxies = [];
  http_routes = [];
  tcp_routes = [];
}

abbrev deployment : StackDeploymentStatus → Option ℕ → StackDeploymentRecord
deployment status finished = record {
  generation = 7;
  status = status;
  started_at_unix_ms = 1000;
  last_progress_at_unix_ms = 1000;
  progress_deadline_seconds = 600;
  wait_for_gateway = false;
  finished_at_unix_ms = finished;
  superseded_by = none;
  retry_revision = 0;
  errors = [];
  image_resolutions = [];
  conditions = [];
  snapshot = record { services = []; gateway = no_routes };
}

abbrev stack : StackDeploymentRecord → StackRecord
stack d = record {
  name = codes "demo";
  applied_at_unix_ms = 1000;
  services = codes "demo.web" ∷ [];
  gateway = no_routes;
  deployment = some d;
  deployment_history = [];
}

abbrev replaced : TaskRecord
replaced = record (task (codes "t1") (codes "a") 2 ObservedTaskState.healthy (binding ∷ [])) {
  applied_generation = some 7;
}

abbrev deploying : StackDeploymentRecord → ClusterState
deploying d = record updating {
  services = (codes "demo.web", service 1 1) ∷ [];
  tasks = (codes "t1", replaced) ∷ [];
  stacks = (codes "demo", stack d) ∷ [];
}

abbrev active_deployment : StackDeploymentRecord
active_deployment = deployment StackDeploymentStatus.reconciling none

abbrev report : TaskReconcileReport
report = record {
  task_id = codes "t1";
  desired_generation = 7;
  applied_generation = none;
  phase = TaskReconcilePhase.pull;
  error = some (codes "pull access Denied");
}

running : Unit {0}
unfolding refresh_stack_deployments refresh_each refresh_stack_deployment next_deployment
    becomes_healthy resolve_deployment_condition is_overdue timeout_ms deployment_of with_deployment
    deployment_is_healthy deployment_replacement_ready stack_replaced replicas_healthy is_applied
    is_settled is_current get keys update values str_eq any all count is_distinct
running = tt

healthy_deployment : StackDeploymentRecord
healthy_deployment = becomes_healthy 2000 active_deployment

becomes :
    deployment_of
      (refresh_stack_deployments 2000 false [] (deploying active_deployment)).0
      (codes "demo")
    ≡ some healthy_deployment
unfolding running healthy_deployment
becomes = refl

refresh_stack_deployments-IsReplaced_example :
    (s : StackRecord) × (get (deploying active_deployment).stacks (codes "demo") ≡ some s)
    × IsReplaced (deploying active_deployment) (codes "demo") s active_deployment false []
unfolding running healthy_deployment
refresh_stack_deployments-IsReplaced_example =
    refresh_stack_deployments-IsReplaced 2000 false [] (deploying active_deployment) (codes "demo")
      active_deployment healthy_deployment refl refl refl becomes refl

refresh_stack_deployments_lem_example :
    deployment_of
      (refresh_stack_deployments 2000 false [] (deploying active_deployment)).0
      (codes "demo")
    ≡ Option.map
        (refreshed 2000 false [] (deploying active_deployment) (codes "demo"))
        (deployment_of (deploying active_deployment) (codes "demo"))
unfolding running
refresh_stack_deployments_lem_example =
    refresh_stack_deployments_lem 2000 false [] (deploying active_deployment) (codes "demo") refl

-- A report of an error, then a refresh.
abbrev reported_state : StackDeploymentRecord → ClusterState
reported_state d = (apply_task_result (deploying d) (codes "a") report 3000).0

abbrev final_state : StackDeploymentRecord → ClusterState
final_state d = (refresh_stack_deployments 700000 true [] (reported_state d)).0

steps : (d : StackDeploymentRecord) → Steps (deploying d) (final_state d)
steps d =
    Steps.and_then (Step.task_reported (codes "a") report 3000 refl)
      (Steps.and_then (Step.refreshed 700000 true [] refl) Steps.done)

abbrev failed_deployment : StackDeploymentRecord
failed_deployment = deployment StackDeploymentStatus.failed (some 1500)

Steps-terminal_example :
    deployment_of (final_state failed_deployment) (codes "demo") ≡ some failed_deployment
unfolding running
Steps-terminal_example =
    Steps-terminal (deploying failed_deployment) (final_state failed_deployment)
      (steps failed_deployment) (codes "demo") failed_deployment refl refl

Steps-is_consistent_example :
    (e : StackDeploymentRecord) × (deployment_of (final_state active_deployment) (codes "demo")
      ≡ some e)
    × (identity e ≡ identity active_deployment)
    × (is_consistent e ≡ true)
unfolding running is_consistent agrees
Steps-is_consistent_example =
    Steps-is_consistent (deploying active_deployment) (final_state active_deployment)
      (steps active_deployment) (codes "demo") active_deployment refl refl

-- The report blocks the deployment, since the user has to act.
needs_user : deployment_error_requires_user (codes "pull access Denied") ≡ true
unfolding deployment_error_requires_user needles to_ascii_lowercase any split_once strip_prefix
needs_user = refl
