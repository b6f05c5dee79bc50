-- ===== src/Scheduler/Ports.antt =====
-- scheduler.rs: the ports that a new task asks for, and those that its node has already given away;
-- crates/swarmlite-core/src/gateway.rs: the ports of a service that routes name.
pub mod Used
use mathlib.Core.Option
use swarmlite.Base.{
  ℕ, Bool, Option, none, some, List, [], ◌∷◌, ◌++◌, map, ◌&&◌, not, if◌then◌else◌, ◌==◌, filter,
  any, all, is_some_and, is_none_or, unwrap_or, Str, codes, str_eq,
}
use swarmlite.Base.Map.{BTreeMap, get, insert, values}
use swarmlite.Cluster.{
  non_empty, ServicePort, ServiceSpec, http_routed_service_ports, routed_service_ports, set_insert,
  is_failed_or_lost, PortBinding, TaskRecord, UnclaimedTask, NodeRecord, ServiceRecord,
  ClusterState,
}

-- `BTreeSet<String>::contains` and `HashSet<u32>::contains`.
abbrev pub contains : List Str → Str → Bool
contains set k = any (λ j. str_eq j k) set

abbrev pub contains_ℕ : List ℕ → ℕ → Bool
contains_ℕ set k = any (λ j. j == k) set

-- gateway.rs: `service_ports`.
unfoldable pub service_ports : ClusterState → ServiceRecord → List ℕ
unfolding routed_service_ports
service_ports state service =
    unwrap_or
      (Option.map (λ stack. routed_service_ports stack.gateway service.name)
        (get state.stacks service.stack))
      []

-- gateway.rs: `is_service_http_routed`.
unfoldable pub is_service_http_routed : ClusterState → ServiceRecord → Bool
unfolding http_routed_service_ports
is_service_http_routed state service =
    is_some_and (get state.stacks service.stack)
      (λ stack. non_empty (http_routed_service_ports stack.gateway service.name))

-- One step of the loop of `used_ports`: a published port joins the set of its protocol.
unfoldable pub use_port : BTreeMap (List ℕ) → PortBinding → BTreeMap (List ℕ)
use_port used port = elim port.published [
  | none ↦ used
  | some published ↦
      insert port.protocol (set_insert published (unwrap_or (get used port.protocol) [])) used
]

unfoldable pub use_ports : BTreeMap (List ℕ) → List PortBinding → BTreeMap (List ℕ)
unfolding use_port
use_ports used [] = used
use_ports used (port ∷ ports) = use_ports (use_port used port) ports

task_ports : List TaskRecord → List PortBinding
task_ports [] = []
task_ports (t ∷ ts) = t.ports ++ task_ports ts

unclaimed_ports : List UnclaimedTask → List PortBinding
unclaimed_ports [] = []
unclaimed_ports (t ∷ ts) = t.ports ++ unclaimed_ports ts

-- The bindings that count as used on a node: those of its tasks that have not failed, and those of
-- its unclaimed containers.
unfoldable pub node_bindings : ClusterState → Str → List PortBinding
unfolding task_ports unclaimed_ports
node_bindings state node_id =
    task_ports (
      filter (λ task. str_eq task.node_id node_id && not (is_failed_or_lost task.observed))
        (values state.tasks))
    ++ unclaimed_ports (filter (λ task. str_eq task.node_id node_id) (values state.unclaimed_tasks))

unfoldable pub used_ports : ClusterState → Str → BTreeMap (List ℕ)
unfolding use_ports node_bindings
used_ports state node_id = use_ports [] (node_bindings state node_id)

-- A requested port is free if it is not fixed, or not in the set of its protocol.
unfoldable pub port_is_free : BTreeMap (List ℕ) → ServicePort → Bool
port_is_free used port =
    is_none_or port.published
      (λ published. is_none_or (get used port.protocol) (λ ports. not (contains_ℕ ports published)))

unfoldable pub explicit_ports_available : ClusterState → NodeRecord → ServiceSpec → Bool
unfolding port_is_free used_ports
explicit_ports_available state node spec = all (port_is_free (used_ports state node.id)) spec.ports

-- The loop of `allocate_ports` over the routed targets.
request_targets : List ServicePort → List ℕ → List ServicePort
request_targets requested [] = requested
request_targets requested (target ∷ targets) =
    request_targets
      (if any (λ port. (port.target == target) && str_eq port.protocol (codes "tcp")) requested
        then requested
        else requested ++ record { target = target; published = none; protocol = codes "tcp" } ∷ [])
      targets

-- `allocate_ports` never fails: it returns `Some` on every path.
unfoldable pub allocate_ports : ClusterState → ServiceRecord → Option (List PortBinding)
unfolding request_targets service_ports
allocate_ports state service = some (
    map
      (λ port. record {
        target = port.target;
        published = port.published;
        protocol = port.protocol;
      })
      (request_targets service.spec.ports (service_ports state service)))
