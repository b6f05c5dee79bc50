-- ===== src/Cluster/Operation.antt =====
-- crates/swarmlite-core/src/service_operations.rs: durable restarts and image redeployments.
use swarmlite.Base.{ℕ, Bool, true, false, Option, List, ◌&&◌, not, any, Str, str_eq}
use swarmlite.Base.Map.{BTreeMap}

pub data ServiceOperationKind : Type 0 where
  restart pull_redeploy : ServiceOperationKind

abbrev pub is_restart : ServiceOperationKind → Bool
is_restart ServiceOperationKind.restart = true
is_restart _ = false

abbrev pub is_pull_redeploy : ServiceOperationKind → Bool
is_pull_redeploy ServiceOperationKind.pull_redeploy = true
is_pull_redeploy _ = false

pub data ServiceOperationStatus : Type 0 where
  queued running succeeded failed : ServiceOperationStatus

-- `ServiceOperationStatus::active`.
abbrev pub active : ServiceOperationStatus → Bool
active ServiceOperationStatus.queued = true
active ServiceOperationStatus.running = true
active _ = false

pub record ServiceOperation : Type 0 where
  pub operation_id : Str
  pub service : Str
  pub kind : ServiceOperationKind
  pub status : ServiceOperationStatus
  pub phase : Str
  pub revision : ℕ
  pub deployment_generation : Option ℕ
  pub completed_tasks : ℕ
  pub total_tasks : ℕ
  pub stalled : Bool
  pub blocked : Bool
  pub error : Option Str

pub record RestartTarget : Type 0 where
  pub task_id : Str
  pub node_id : Str
  pub container_id : Str
  pub image_id : Str
  pub restarted : Bool
  pub completed : Bool
  pub deadline_unix_ms : Option ℕ

pub record ServiceOperationRecord : Type 0 where
  pub view : ServiceOperation
  pub principal_id : Str
  pub idempotency_key : Str
  pub request_hash : Str
  pub stack : Str
  pub generation : ℕ
  pub target_revision : ℕ
  pub image : Str
  pub created_at_unix_ms : ℕ
  pub updated_at_unix_ms : ℕ
  pub finished_at_unix_ms : Option ℕ
  pub source : BTreeMap Str
  pub tasks : List RestartTarget
  pub preparing_nodes : List Str
  pub prepared_images : BTreeMap Str

-- `ServiceOperationRecord::restarting_task`.
unfoldable pub restarting_task : ServiceOperationRecord → Str → Bool
restarting_task op task_id =
    active op.view.status
    && is_restart op.view.kind
    && any (λ task. str_eq task.task_id task_id && not task.completed) op.tasks
