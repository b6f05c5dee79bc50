-- ===== src/Deployment/Resolved.antt =====
-- deployment.rs: `apply_image_resolution_report`.
use swarmlite.Base.{
  ℕ, ◌+◌, Bool, true, false, Option, none, some, List, [], ◌∷◌, ◌++◌, map, ◌&&◌, not, if◌then◌else◌,
  ◌==◌, filter, any, all, is_some, Str, codes,
}
use swarmlite.Base.Map.{BTreeMap, get, insert, update, map_values, values, keys}
use swarmlite.Cluster.{
  StackDeploymentStatus, StackDeploymentConditionKind, StackDeploymentRecord, ImageResolutionStatus,
  is_complete, DeploymentImageResolutionRecord, DeploymentImageResolutionNodeRecord,
  TaskReconcilePhase, ServiceRecord, ClusterState,
}
use swarmlite.Deployment.Conditions.{
  set_deployment_condition, deployment_error_requires_user, with_deployment, deployment_of,
}
use swarmlite.Deployment.Report.{push_error}
use swarmlite.Deployment.Images.{
  ImageResolutionReport, ImageResolutionServiceReport, same_set, is_expected, service_report_error,
  deploying_stack,
}

-- The expected resolutions by their service.
unfoldable pub expected_of :
    (node_id image : Str)
    → List DeploymentImageResolutionRecord
    → BTreeMap DeploymentImageResolutionRecord
    → BTreeMap DeploymentImageResolutionRecord
expected_of node_id image [] found = found
expected_of node_id image (resolution ∷ rest) found =
    let kept = expected_of node_id image rest (insert resolution.service_id resolution found) in
    let skipped = expected_of node_id image rest found in
    if is_expected node_id image resolution then kept else skipped

-- The first error of the reports on the services.
unfoldable pub services_error :
    (node_id resolved_image_id : Str)
    → BTreeMap DeploymentImageResolutionRecord
    → List ImageResolutionServiceReport
    → Option Str
services_error node_id resolved_image_id expected [] = none
services_error node_id resolved_image_id expected (service ∷ services) =
    let rest = services_error node_id resolved_image_id expected services in
    elim (get expected service.service_id) [
      | none ↦ rest
      | some resolution ↦ elim (service_report_error node_id resolved_image_id resolution service) [
        | none ↦ rest
        | some message ↦ some message
      ]
    ]

abbrev pub is_empty {ℓ} : {A : Type ℓ} → List A → Bool
is_empty [] = true
is_empty (x ∷ xs) = false

unfoldable pub validation_error :
    (node_id : Str) → ImageResolutionReport → BTreeMap DeploymentImageResolutionRecord → Option Str
validation_error node_id report expected = elim report.error [
  | some message ↦ some message
  | none ↦ elim report.resolved_image_id [
    | none ↦ some (codes "runtime did not report the resolved image ID")
    | some resolved_image_id ↦
        if is_empty resolved_image_id
        then some (codes "runtime reported an empty image ID")
        else if not (same_set (map (λ s. s.service_id) report.services) (keys expected))
        then some (codes "image resolution report did not cover the assigned services")
        else services_error node_id resolved_image_id expected report.services
  ]
]

-- An expected resolution fails on the node.
unfoldable pub resolution_failed :
    (node_id message : Str) → DeploymentImageResolutionRecord → DeploymentImageResolutionRecord
resolution_failed node_id message resolution = record resolution {
  status = ImageResolutionStatus.failed;
  nodes =
      update node_id
        (λ node. record node { status = ImageResolutionStatus.failed; error = some message })
        resolution.nodes;
}

-- The errors of the failed resolutions, in their order.
unfoldable pub push_image_errors :
    (node_id image message : Str)
    → List DeploymentImageResolutionRecord
    → StackDeploymentRecord
    → StackDeploymentRecord
push_image_errors node_id image message [] deployment = deployment
push_image_errors node_id image message (resolution ∷ rest) deployment =
    push_image_errors node_id image message rest (
      push_error
        (record {
          task_id = codes "image:" ++ image;
          service = resolution.service;
          node_id = node_id;
          phase = TaskReconcilePhase.pull;
          message = message;
        })
        deployment)

unfoldable pub names_expected :
    BTreeMap DeploymentImageResolutionRecord → DeploymentImageResolutionRecord → Bool
names_expected expected resolution = is_some (get expected resolution.service_id)

unfoldable pub image_failed :
    (node_id image message : Str)
    → BTreeMap DeploymentImageResolutionRecord
    → (now_unix_ms : ℕ) → StackDeploymentRecord
    → StackDeploymentRecord
image_failed node_id image message expected now_unix_ms deployment =
    let noted =
      push_image_errors node_id image message
        (filter (names_expected expected) (values deployment.image_resolutions))
        (record deployment {
          image_resolutions =
              map_values
                (λ resolution.
                  if names_expected expected resolution
                  then resolution_failed node_id message resolution
                  else resolution)
                deployment.image_resolutions;
        }) in
    if deployment_error_requires_user message
    then record (set_deployment_condition noted StackDeploymentConditionKind.user_action_required
        now_unix_ms (codes "image_pull_dependency") message) {
          status = StackDeploymentStatus.blocked;
          finished_at_unix_ms = none;
        }
    else record noted {
      status = StackDeploymentStatus.failed;
      finished_at_unix_ms = some now_unix_ms;
    }

-- The reports by their service; a later one replaces an earlier one.
unfoldable pub reports_of :
    List ImageResolutionServiceReport
    → BTreeMap ImageResolutionServiceReport
    → BTreeMap ImageResolutionServiceReport
reports_of [] found = found
reports_of (service ∷ services) found =
    reports_of services (insert service.service_id service found)

unfoldable pub node_resolved :
    (resolved_image_id : Str)
    → ImageResolutionServiceReport
    → DeploymentImageResolutionNodeRecord
    → DeploymentImageResolutionNodeRecord
node_resolved resolved_image_id service_report node = record node {
  old_image_ids = service_report.old_image_ids;
  resolved_image_id = some resolved_image_id;
  error = none;
  status =
      (if service_report.changed
        then ImageResolutionStatus.changed
        else ImageResolutionStatus.unchanged);
}

unfoldable pub is_changed : ImageResolutionStatus → Bool
is_changed ImageResolutionStatus.changed = true
is_changed _ = false

-- The status of a resolution once every node is complete.
unfoldable pub settled_status : DeploymentImageResolutionRecord → ImageResolutionStatus
settled_status resolution =
    if all (λ node. is_complete node.status) (values resolution.nodes)
    then if any (λ node. is_changed node.status) (values resolution.nodes)
      then ImageResolutionStatus.changed
      else ImageResolutionStatus.unchanged
    else resolution.status

unfoldable pub resolution_resolved :
    (node_id resolved_image_id : Str)
    → BTreeMap ImageResolutionServiceReport
    → DeploymentImageResolutionRecord
    → DeploymentImageResolutionRecord
resolution_resolved node_id resolved_image_id reports resolution =
    elim (get reports resolution.service_id) [
      | none ↦ resolution
      | some service_report ↦
          let next : DeploymentImageResolutionRecord = record resolution {
            nodes =
                update node_id (node_resolved resolved_image_id service_report) resolution.nodes;
          } in
          record next { status = settled_status next }
    ]

-- The resolution is settled, and some node found another image.
unfoldable pub has_changed : DeploymentImageResolutionRecord → Bool
has_changed resolution =
    all (λ node. is_complete node.status) (values resolution.nodes)
    && any (λ node. is_changed node.status) (values resolution.nodes)

unfoldable pub bump_revision : (baseline_revision : ℕ) → ServiceRecord → ServiceRecord
bump_revision baseline_revision service =
    if service.revision == baseline_revision
    then record service { revision = service.revision + 1 }
    else service

unfoldable pub bump_services :
    List DeploymentImageResolutionRecord → BTreeMap ServiceRecord → BTreeMap ServiceRecord
bump_services [] services = services
bump_services (resolution ∷ rest) services =
    bump_services rest
      (update resolution.service_id (bump_revision resolution.baseline_revision) services)

unfoldable pub image_resolved :
    ClusterState
    → (stack_name node_id resolved_image_id : Str) → BTreeMap ImageResolutionServiceReport
    → BTreeMap DeploymentImageResolutionRecord
    → StackDeploymentRecord
    → ClusterState
image_resolved state stack_name node_id resolved_image_id reports expected deployment =
    let resolved = λ (resolution : DeploymentImageResolutionRecord).
      if names_expected expected resolution
      then resolution_resolved node_id resolved_image_id reports resolution
      else resolution in
    let changed_services =
      filter has_changed
        (map resolved (filter (names_expected expected) (values deployment.image_resolutions))) in
    let noted =
      with_deployment state stack_name
        (λ d. record d { image_resolutions = map_values resolved d.image_resolutions }) in
    record noted { services = bump_services changed_services noted.services }

unfoldable pub apply_image_resolution_report :
    ClusterState → (node_id : Str) → ImageResolutionReport → (now_unix_ms : ℕ) → ClusterState × Bool
apply_image_resolution_report state node_id report now_unix_ms =
    elim (deploying_stack report.deployment_generation state.stacks) [
      | none ↦ (state, false)
      | some stack_name ↦ elim (deployment_of state stack_name) [
        | none ↦ (state, false)
        | some deployment ↦
            let expected =
              expected_of node_id report.image (values deployment.image_resolutions) [] in
            if is_empty expected
            then (state, false)
            else elim (validation_error node_id report expected) [
              | some message ↦ (
                with_deployment state stack_name
                    (image_failed node_id report.image message expected now_unix_ms),
                true,
              )
              | none ↦ elim report.resolved_image_id [
                | none ↦ (state, false)
                | some resolved_image_id ↦ (
                  image_resolved state stack_name node_id resolved_image_id
                      (reports_of report.services []) expected deployment,
                  true,
                )
              ]
            ]
      ]
    ]
