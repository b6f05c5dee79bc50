-- ===== src/Deployment/Images.antt =====
-- deployment.rs: `apply_image_progress` and `apply_image_resolution_report`, what a node reports of
-- the images that a deployment has it look up. Sets of ids are compared as lists, each within the
-- other.
use swarmlite.Base.{
  ℕ, Bool, true, false, Option, none, some, List, [], ◌∷◌, ◌++◌, ◌&&◌, ◌||◌, not, if◌then◌else◌,
  ltb, ◌==◌, any, all, find, is_some, is_some_and, Str, codes, str_eq,
}
use swarmlite.Base.Map.{BTreeMap, get, update, map_values, values, keys}
use swarmlite.Cluster.{
  is_active, StackRecord, ImageResolutionStatus, is_complete, DeploymentImageResolutionRecord,
  DeploymentImageResolutionNodeRecord, ClusterState,
}
use swarmlite.Scheduler.Ports.{contains}
use swarmlite.Deployment.Conditions.{with_deployment, deployment_of}

pub record ImageResolutionProgress : Type 0 where
  pub deployment_generation : ℕ
  pub image : Str
  pub status : ImageResolutionStatus
  pub attempt : ℕ
  pub current_bytes : Option ℕ
  pub total_bytes : Option ℕ
  pub updated_at_unix_ms : ℕ

pub record ImageResolutionServiceReport : Type 0 where
  pub service_id : Str
  pub old_image_ids : BTreeMap Str
  pub changed : Bool

pub record ImageResolutionReport : Type 0 where
  pub deployment_generation : ℕ
  pub image : Str
  pub resolved_image_id : Option Str
  pub services : List ImageResolutionServiceReport
  pub error : Option Str

-- The order that the source derives.
unfoldable pub status_number : ImageResolutionStatus → ℕ
status_number ImageResolutionStatus.checking = 0
status_number ImageResolutionStatus.pulling = 1
status_number ImageResolutionStatus.comparing = 2
status_number ImageResolutionStatus.unchanged = 3
status_number ImageResolutionStatus.changed = 4
status_number ImageResolutionStatus.skipped = 5
status_number ImageResolutionStatus.failed = 6

unfoldable pub same_status : ImageResolutionStatus → ImageResolutionStatus → Bool
same_status a b = status_number a == status_number b

unfoldable pub is_under_way : ImageResolutionStatus → Bool
is_under_way ImageResolutionStatus.checking = true
is_under_way ImageResolutionStatus.pulling = true
is_under_way ImageResolutionStatus.comparing = true
is_under_way _ = false

-- `max` of the statuses that are not complete.
unfoldable pub aggregate : List DeploymentImageResolutionNodeRecord → Option ImageResolutionStatus
aggregate [] = none
aggregate (node ∷ nodes) =
    let rest = aggregate nodes in
    if is_complete node.status then rest else elim rest [
      | none ↦ some node.status
      | some s ↦
          if ltb (status_number s) (status_number node.status) then some node.status else some s
    ]

unfoldable pub is_awaited : (image : Str) → DeploymentImageResolutionRecord → Bool
is_awaited image resolution = str_eq resolution.image image && not (is_complete resolution.status)

-- The node's status, unless its work is complete.
unfoldable pub node_progressed :
    ImageResolutionStatus
    → DeploymentImageResolutionNodeRecord
    → DeploymentImageResolutionNodeRecord
node_progressed status node =
    if is_complete node.status then node else record node { status = status }

unfoldable pub resolution_progressed :
    (node_id : Str)
    → ImageResolutionProgress
    → DeploymentImageResolutionRecord
    → DeploymentImageResolutionRecord
resolution_progressed node_id progress resolution =
    let nodes = update node_id (node_progressed progress.status) resolution.nodes in
    let status : ImageResolutionStatus = elim (aggregate (values nodes)) [
      | none ↦ resolution.status
      | some s ↦ s
    ] in
    if is_awaited progress.image resolution && is_some (get resolution.nodes node_id)
    then record resolution { nodes = nodes; status = status }
    else resolution

-- The answer of the source: a status of the node or of the whole has changed.
unfoldable pub progress_changes :
    (node_id : Str) → ImageResolutionProgress → DeploymentImageResolutionRecord → Bool
progress_changes node_id progress resolution =
    not (same_status (resolution_progressed node_id progress resolution).status resolution.status)
    || is_awaited progress.image resolution
      && is_some_and (get resolution.nodes node_id)
          (λ node. not (is_complete node.status) && not (same_status node.status progress.status))

-- The stack whose active deployment has the generation: the first one.
unfoldable pub deploys : (generation : ℕ) → StackRecord → Bool
deploys generation stack =
    is_some_and stack.deployment
      (λ deployment. deployment.generation == generation && is_active deployment.status)

unfoldable pub deploying_stack : (generation : ℕ) → BTreeMap StackRecord → Option Str
deploying_stack generation stacks =
    find (λ name. is_some_and (get stacks name) (deploys generation)) (keys stacks)

unfoldable pub apply_image_progress :
    ClusterState → (node_id : Str) → ImageResolutionProgress → ClusterState × Bool
apply_image_progress state node_id progress =
    if not (is_under_way progress.status)
    then (state, false)
    else elim (deploying_stack progress.deployment_generation state.stacks) [
      | none ↦ (state, false)
      | some stack_name ↦ (
        with_deployment state stack_name (λ deployment. record deployment {
          image_resolutions =
              map_values (resolution_progressed node_id progress) deployment.image_resolutions;
        }),
        is_some_and (deployment_of state stack_name) (λ deployment.
            any (progress_changes node_id progress) (values deployment.image_resolutions)),
      )
    ]

-- The resolutions that wait for this node.
unfoldable pub is_expected :
    (node_id : Str) → (image : Str) → DeploymentImageResolutionRecord → Bool
is_expected node_id image resolution =
    is_awaited image resolution
    && is_some_and (get resolution.nodes node_id) (λ node. not (is_complete node.status))

unfoldable pub same_set : List Str → List Str → Bool
same_set xs ys = all (contains ys) xs && all (contains xs) ys

-- `{:?}` of a service id is the id in quotation marks: ids hold no characters that are escaped.
unfoldable pub service_error : (service_id rest : Str) → Str
service_error service_id rest =
    codes "image resolution report for service " ++ (b'"' ∷ (service_id ++ (b'"' ∷ rest)))

unfoldable pub service_report_error :
    (node_id resolved_image_id : Str)
    → DeploymentImageResolutionRecord
    → ImageResolutionServiceReport
    → Option Str
service_report_error node_id resolved_image_id resolution service =
    let expected_tasks : List Str = elim (get resolution.nodes node_id) [
      | none ↦ []
      | some node ↦ node.task_ids
    ] in
    let changed = any (λ id. not (str_eq id resolved_image_id)) (values service.old_image_ids) in
    if not (same_set expected_tasks (keys service.old_image_ids))
    then some (service_error service.service_id (codes " did not cover its running tasks"))
    else if not (if service.changed then changed else not changed)
    then some (service_error service.service_id (codes " contained an inconsistent comparison"))
    else none
