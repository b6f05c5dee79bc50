-- ===== src/Cluster/Task.antt =====
-- crates/swarmlite-core/src/model.rs: tasks, nodes and services.
use swarmlite.Base.{ℕ, Bool, true, false, Option, List, Str}
use swarmlite.Base.Map.{BTreeMap}
use swarmlite.Cluster.Spec.{ServiceSpec, ℤ}

pub data DesiredTaskState : Type 0 where
  running draining stopped : DesiredTaskState

pub data ObservedTaskState : Type 0 where
  succeeded unknown cancelled timed_out pending starting running healthy failed lost :
      ObservedTaskState

abbrev pub is_running : DesiredTaskState → Bool
is_running DesiredTaskState.running = true
is_running _ = false

abbrev pub is_draining : DesiredTaskState → Bool
is_draining DesiredTaskState.draining = true
is_draining _ = false

abbrev pub is_stopped : DesiredTaskState → Bool
is_stopped DesiredTaskState.stopped = true
is_stopped _ = false

abbrev pub is_healthy : ObservedTaskState → Bool
is_healthy ObservedTaskState.healthy = true
is_healthy _ = false

abbrev pub is_unknown : ObservedTaskState → Bool
is_unknown ObservedTaskState.unknown = true
is_unknown _ = false

abbrev pub is_pending : ObservedTaskState → Bool
is_pending ObservedTaskState.pending = true
is_pending _ = false

-- `matches!(task.observed, ObservedTaskState::Failed | ObservedTaskState::Lost)`.
abbrev pub is_failed_or_lost : ObservedTaskState → Bool
is_failed_or_lost ObservedTaskState.failed = true
is_failed_or_lost ObservedTaskState.lost = true
is_failed_or_lost _ = false

-- `ObservedTaskState::is_job_terminal`.
abbrev pub is_job_terminal : ObservedTaskState → Bool
is_job_terminal ObservedTaskState.succeeded = true
is_job_terminal ObservedTaskState.failed = true
is_job_terminal ObservedTaskState.cancelled = true
is_job_terminal ObservedTaskState.timed_out = true
is_job_terminal _ = false

pub data TaskReconcilePhase : Type 0 where
  inspect config pull create replace start stop remove verify : TaskReconcilePhase

pub record TaskReconcileError : Type 0 where
  pub phase : TaskReconcilePhase
  pub message : Str

pub record PortBinding : Type 0 where
  pub target : ℕ
  pub published : Option ℕ
  pub protocol : Str

pub record JobCursor : Type 0 where
  pub last_scheduled_at_unix_ms : Option ℕ
  pub schedule : Str
  pub time_zone : Str
  pub next_at_unix_ms : ℕ

pub record JobRuntimeState : Type 0 where
  pub stop_reason : Option Str
  pub job_id : Str
  pub scheduled_at_unix_ms : ℕ
  pub start_deadline_unix_ms : ℕ
  pub timeout_seconds : Option ℕ
  pub started_at_unix_ms : Option ℕ
  pub finished_at_unix_ms : Option ℕ
  pub exit_code : Option ℤ

pub record JobExecution : Type 0 where
  pub runtime : Option JobRuntimeState
  pub job_id : Str
  pub scheduled_at_unix_ms : ℕ
  pub not_before_unix_ms : ℕ
  pub start_deadline_unix_ms : ℕ
  pub spec : ServiceSpec

pub record TaskRecord : Type 0 where
  pub image_id : Option Str
  pub job : Option JobExecution
  pub id : Str
  pub service_id : Str
  pub revision : ℕ
  pub slot : ℕ
  pub node_id : Str
  pub desired : DesiredTaskState
  pub observed : ObservedTaskState
  pub ports : List PortBinding
  pub config_digests : List Str
  pub container_id : Option Str
  pub drain_until_unix_ms : Option ℕ
  pub applied_generation : Option ℕ
  pub reconcile_error : Option TaskReconcileError

pub record UnclaimedTask : Type 0 where
  pub id : Str
  pub stack : Str
  pub service : Str
  pub slot : ℕ
  pub revision : ℕ
  pub spec_hash : Str
  pub node_id : Str
  pub observed : ObservedTaskState
  pub ports : List PortBinding
  pub config_digests : List Str
  pub container_id : Option Str

-- The `metrics` sample, which holds floating-point numbers and is read by no modelled code, is
-- left out.
pub record NodeRecord : Type 0 where
  pub supports_service_operations : Bool
  pub supports_jobs : Bool
  pub id : Str
  pub address : Str
  pub swarmlite_version : Option Str
  pub labels : BTreeMap Str
  pub cpu_millis : ℕ
  pub memory_bytes : ℕ
  pub port_range_start : ℕ
  pub port_range_end : ℕ
  pub gateway_enabled : Bool

pub record ServiceRecord : Type 0 where
  pub job_cursor : Option JobCursor
  pub id : Str
  pub stack : Str
  pub name : Str
  pub revision : ℕ
  pub spec : ServiceSpec
  pub deleted : Bool
