-- ===== src/Cluster/State.antt =====
-- crates/swarmlite-core/src/model.rs: deployments, stacks and the whole cluster state.
use swarmlite.Base.{ℕ, Bool, true, false, not, Option, List, Str}
use swarmlite.Base.Map.{BTreeMap}
use swarmlite.Cluster.Spec.{ServiceSpec}
use swarmlite.Cluster.Gateway.{StackGatewaySpec}
use swarmlite.Cluster.Operation.{ServiceOperationRecord}
use swarmlite.Cluster.Task.{
  TaskRecord, UnclaimedTask, NodeRecord, ServiceRecord, TaskReconcilePhase,
}

pub data StackDeploymentStatus : Type 0 where
  reconciling stalled blocked healthy failed superseded : StackDeploymentStatus

-- `StackDeploymentStatus::is_terminal` and `is_active`.
abbrev pub is_terminal : StackDeploymentStatus → Bool
is_terminal StackDeploymentStatus.healthy = true
is_terminal StackDeploymentStatus.failed = true
is_terminal StackDeploymentStatus.superseded = true
is_terminal _ = false

abbrev pub is_active : StackDeploymentStatus → Bool
is_active s = not (is_terminal s)

pub data ImageResolutionStatus : Type 0 where
  checking pulling comparing unchanged changed skipped failed : ImageResolutionStatus

-- `ImageResolutionStatus::is_complete`.
abbrev pub is_complete : ImageResolutionStatus → Bool
is_complete ImageResolutionStatus.unchanged = true
is_complete ImageResolutionStatus.changed = true
is_complete ImageResolutionStatus.skipped = true
is_complete _ = false

pub data StackDeploymentConditionKind : Type 0 where
  progress_deadline_exceeded user_action_required : StackDeploymentConditionKind

pub record StackDeploymentCondition : Type 0 where
  pub kind : StackDeploymentConditionKind
  pub observed_at_unix_ms : ℕ
  pub resolved_at_unix_ms : Option ℕ
  pub reason : Str
  pub message : Str

pub record DeploymentImageResolutionNodeRecord : Type 0 where
  pub task_ids : List Str
  pub status : ImageResolutionStatus
  pub old_image_ids : BTreeMap Str
  pub resolved_image_id : Option Str
  pub error : Option Str

pub record DeploymentImageResolutionRecord : Type 0 where
  pub service_id : Str
  pub service : Str
  pub image : Str
  pub baseline_revision : ℕ
  pub status : ImageResolutionStatus
  pub nodes : BTreeMap DeploymentImageResolutionNodeRecord

pub record StackDeploymentError : Type 0 where
  pub task_id : Str
  pub service : Str
  pub node_id : Str
  pub phase : TaskReconcilePhase
  pub message : Str

pub record StackDeploymentSnapshot : Type 0 where
  pub services : BTreeMap ServiceSpec
  pub gateway : StackGatewaySpec

pub record StackDeploymentRecord : Type 0 where
  pub generation : ℕ
  pub status : StackDeploymentStatus
  pub started_at_unix_ms : ℕ
  pub last_progress_at_unix_ms : ℕ
  pub progress_deadline_seconds : ℕ
  pub wait_for_gateway : Bool
  pub finished_at_unix_ms : Option ℕ
  pub superseded_by : Option ℕ
  pub retry_revision : ℕ
  pub errors : List StackDeploymentError
  pub image_resolutions : BTreeMap DeploymentImageResolutionRecord
  pub conditions : List StackDeploymentCondition
  pub snapshot : StackDeploymentSnapshot

-- The deployment history is keyed by generation; no modelled code reads it, and it is kept as the
-- list of its entries.
pub record StackRecord : Type 0 where
  pub name : Str
  pub applied_at_unix_ms : ℕ
  pub services : List Str
  pub gateway : StackGatewaySpec
  pub deployment : Option StackDeploymentRecord
  pub deployment_history : List (ℕ × StackDeploymentRecord)

pub record ServicePortKey : Type 0 where
  pub service : Str
  pub target_port : ℕ
  pub protocol : Str

-- The upstreams are a map with structured keys, kept as the list of its entries.
pub record RecoveredStackGateway : Type 0 where
  pub gateway : StackGatewaySpec
  pub upstreams : List (ServicePortKey × List Str)

pub record NodeMember : Type 0 where
  pub id : Str
  pub address : Str
  pub gateway_enabled : Bool
  pub labels : BTreeMap Str
  pub joined_at_unix_ms : ℕ

pub record RegistryCredential : Type 0 where
  pub username : Str
  pub password : Str

pub record ClusterState : Type 0 where
  pub service_operations : BTreeMap ServiceOperationRecord
  pub stacks : BTreeMap StackRecord
  pub services : BTreeMap ServiceRecord
  pub nodes : BTreeMap NodeRecord
  pub tasks : BTreeMap TaskRecord
  pub members : BTreeMap NodeMember
  pub unclaimed_tasks : BTreeMap UnclaimedTask
  pub gateway_routes : BTreeMap RecoveredStackGateway
  pub gateway_generation : ℕ
  pub registry_credentials : BTreeMap RegistryCredential
