-- ===== src/Cluster/Spec.antt =====
-- crates/swarmlite-stack/src/lib.rs and jobs.rs: the normalized specification of a service.
use swarmlite.Base.{ℕ, Bool, Option, List, Str}
use swarmlite.Base.Map.{BTreeMap}

-- An `i64`: `negsuc n` is -(n + 1).
pub data ℤ : Type 0 where
  pos : ℕ → ℤ
  negsuc : ℕ → ℤ

pub data PullPolicy : Type 0 where
  always missing never : PullPolicy

pub record ServicePort : Type 0 where
  pub target : ℕ
  pub published : Option ℕ
  pub protocol : Str

pub record ServiceConfigMount : Type 0 where
  pub source : Str
  pub target : Str
  pub uid : Option ℕ
  pub gid : Option ℕ
  pub mode : ℕ
  pub digest : Str

pub record HealthcheckSpec : Type 0 where
  pub test : List Str
  pub interval_nanos : Option ℤ
  pub timeout_nanos : Option ℤ
  pub retries : Option ℤ
  pub start_period_nanos : Option ℤ
  pub start_interval_nanos : Option ℤ

pub record ContainerRuntimeSpec : Type 0 where
  pub user : Option Str
  pub read_only : Bool
  pub cap_add : List Str
  pub cap_drop : List Str
  pub no_new_privileges : Bool
  pub tmpfs : BTreeMap Str
  pub pids_limit : Option ℤ
  pub nano_cpus : Option ℤ
  pub memory_bytes : Option ℤ
  pub memory_swap_bytes : Option ℤ

pub record JobSpec : Type 0 where
  pub schedule : Option Str
  pub time_zone : Str
  pub suspend : Bool
  pub timeout_seconds : Option ℕ

pub record ServiceSpec : Type 0 where
  pub image : Str
  pub pull_policy : PullPolicy
  pub command : List Str
  pub entrypoint : List Str
  pub environment : List Str
  pub expose : List ServicePort
  pub ports : List ServicePort
  pub volumes : List Str
  pub configs : List ServiceConfigMount
  pub container_labels : BTreeMap Str
  pub service_labels : BTreeMap Str
  pub healthcheck : Option HealthcheckSpec
  pub replicas : ℕ
  pub constraints : List Str
  pub max_replicas_per_node : Option ℕ
  pub max_surge : ℕ
  pub stop_grace_period_seconds : ℕ
  pub stop_signal : Option Str
  pub container : ContainerRuntimeSpec
  pub job : Option JobSpec
