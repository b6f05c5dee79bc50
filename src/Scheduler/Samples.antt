-- ===== src/Scheduler/Samples.antt =====
-- A small cluster for the tests: two nodes, and a service in the middle of a rolling update.
use swarmlite.Base.{
  ℕ, ◌<◌, ◌≡◌, refl, none, some, List, [], ◌∷◌, ◌++◌, false, true, arith, length, length-append,
  Str, codes, str_eq_iff,
}
use swarmlite.Base.Map.{BTreeMap, get}
use swarmlite.Cluster.{
  PullPolicy, ServiceSpec, DesiredTaskState, ObservedTaskState, TaskRecord, NodeRecord,
  ServiceRecord, ClusterState, PortBinding,
}
use swarmlite.Scheduler.Rollout.Availability.{Fresh}

abbrev pub spec : (replicas surge : ℕ) → ServiceSpec
spec replicas surge = record {
  image = codes "example/web:v2";
  pull_policy = PullPolicy.missing;
  command = [];
  entrypoint = [];
  environment = [];
  expose = [];
  ports = record { target = 80; published = some 8080; protocol = codes "tcp" } ∷ [];
  volumes = [];
  configs = [];
  container_labels = [];
  service_labels = [];
  healthcheck = none;
  replicas = replicas;
  constraints = codes "node.labels.zone == a" ∷ [];
  max_replicas_per_node = some 1;
  max_surge = surge;
  stop_grace_period_seconds = 10;
  stop_signal = none;
  container = record {
    user = none;
    read_only = false;
    cap_add = [];
    cap_drop = [];
    no_new_privileges = false;
    tmpfs = [];
    pids_limit = none;
    nano_cpus = none;
    memory_bytes = none;
    memory_swap_bytes = none;
  };
  job = none;
}

abbrev pub service : (replicas surge : ℕ) → ServiceRecord
service replicas surge = record {
  job_cursor = none;
  id = codes "demo.web";
  stack = codes "demo";
  name = codes "web";
  revision = 2;
  spec = spec replicas surge;
  deleted = false;
}

abbrev pub node : Str → NodeRecord
node id = record {
  supports_service_operations = true;
  supports_jobs = true;
  id = id;
  address = codes "10.0.0.1";
  swarmlite_version = none;
  labels = (codes "zone", codes "a") ∷ [];
  cpu_millis = 1000;
  memory_bytes = 1024;
  port_range_start = 20000;
  port_range_end = 20010;
  gateway_enabled = false;
}

abbrev pub task : Str → Str → ℕ → ObservedTaskState → List PortBinding → TaskRecord
task id node_id revision observed ports = record {
  image_id = none;
  job = none;
  id = id;
  service_id = codes "demo.web";
  revision = revision;
  slot = 0;
  node_id = node_id;
  desired = DesiredTaskState.running;
  observed = observed;
  ports = ports;
  config_digests = [];
  container_id = none;
  drain_until_unix_ms = none;
  applied_generation = none;
  reconcile_error = none;
}

abbrev pub binding : PortBinding
binding = record { target = 80; published = some 8080; protocol = codes "tcp" }

abbrev pub live_nodes : List Str
live_nodes = codes "a" ∷ codes "b" ∷ []

-- One task of the first revision serves on node `a`; node `b` is empty.
abbrev pub state : BTreeMap TaskRecord → ClusterState
state tasks = record {
  service_operations = [];
  stacks = [];
  services = [];
  nodes = (codes "a", node (codes "a")) ∷ (codes "b", node (codes "b")) ∷ [];
  tasks = tasks;
  members = [];
  unclaimed_tasks = [];
  gateway_routes = [];
  gateway_generation = 1;
  registry_credentials = [];
}

abbrev pub updating : ClusterState
updating =
    state
      ((codes "t1", task (codes "t1") (codes "a") 1 ObservedTaskState.healthy (binding ∷ [])) ∷ [])

-- An id generator: longer than all the ids in use together.
abbrev joined : BTreeMap TaskRecord → Str
joined [] = []
joined ((k, t) ∷ m) = k ++ joined m

abbrev pub draw : ClusterState → Str
draw s = b'u' ∷ joined s.tasks

get-long : (k : Str) (m : BTreeMap TaskRecord) → length (joined m) < length k → get m k ≡ none
unfolding get
get-long k [] h = refl
get-long k ((j, t) ∷ m) h = ground (arith, str_eq_iff j k, length-append j (joined m), get-long k m)

pub draw-Fresh : Fresh draw
draw-Fresh s = get-long (draw s) s.tasks (omega arith)
