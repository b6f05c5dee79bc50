-- ===== src/Gateway/Routes.antt =====
-- crates/swarmlite-core/src/gateway.rs: the routes that the gateways get, `stack_fragment`,
-- `replace_stack_route` and `refresh_ready_stack_routes`.
use mathlib.Core.Option
use swarmlite.Base.{
  ℕ, Bool, true, false, Option, none, some, List, [], ◌∷◌, ◌++◌, map, ◌&&◌, ◌||◌, not,
  if◌then◌else◌, ltb, ◌==◌, filter, any, all, find, is_some, is_none, is_some_and, Str, codes,
  str_eq, str_lt,
}
use swarmlite.Base.Map.{BTreeMap, get, insert, remove, values, keys, contains_key}
use swarmlite.Base.Scan.{contains_char, starts_with}
use swarmlite.Cluster.{
  StackGatewaySpec, HttpRouteRule, TcpRouteSpec, route_rules, has_routes, ServicePortKey,
  RecoveredStackGateway, ServiceRecord, non_empty, PortBinding, TaskRecord, NodeRecord,
  ServiceOperationRecord, RestartTarget, restarting_task, is_running, is_healthy, ClusterState,
  same_fragment,
}
use swarmlite.Gateway.PortKey.{tcp, new_key, decimal}
use swarmlite.Scheduler.Ports.{contains, service_ports}
pub mod Upstreams
pub mod Settled

-- The order that `ServicePortKey` derives.
unfoldable pub same_key : ServicePortKey → ServicePortKey → Bool
same_key a b =
    str_eq a.service b.service && a.target_port == b.target_port && str_eq a.protocol b.protocol

unfoldable pub key_before : ServicePortKey → ServicePortKey → Bool
key_before a b =
    if str_lt a.service b.service
    then true
    else if str_eq a.service b.service
    then if ltb a.target_port b.target_port
      then true
      else (a.target_port == b.target_port) && str_lt a.protocol b.protocol
    else false

unfoldable pub insert_upstream :
    ServicePortKey → List Str → List (ServicePortKey × List Str) → List (ServicePortKey × List Str)
insert_upstream key addresses [] = (key, addresses) ∷ []
insert_upstream key addresses ((k, old) ∷ rest) =
    if same_key k key
    then (k, addresses) ∷ rest
    else if key_before key k
    then (key, addresses) ∷ (k, old) ∷ rest
    else (k, old) ∷ insert_upstream key addresses rest

-- `BTreeSet<String>`: an ascending list without repetitions.
unfoldable pub insert_address : Str → List Str → List Str
insert_address a [] = a ∷ []
insert_address a (b ∷ bs) =
    if str_eq b a then b ∷ bs else if str_lt a b then a ∷ b ∷ bs else b ∷ insert_address a bs

unfoldable pub format_host : Str → Str
format_host host =
    if contains_char b':' host && not (starts_with host (codes "["))
    then b'[' ∷ (host ++ codes "]")
    else host

unfoldable pub http_keys : List HttpRouteRule → List ServicePortKey
http_keys [] = []
http_keys (rule ∷ rules) = elim rule.backend.service [
  | none ↦ http_keys rules
  | some service ↦ new_key service rule.backend.port rule.backend.protocol ∷ http_keys rules
]

unfoldable pub tcp_keys : List TcpRouteSpec → List ServicePortKey
tcp_keys = map (λ route. tcp route.backend.service route.backend.port)

unfoldable pub upstream_keys : StackGatewaySpec → List ServicePortKey
upstream_keys gateway = http_keys (route_rules gateway.http_routes) ++ tcp_keys gateway.tcp_routes

-- The rolling restart is at this task.
unfoldable pub restarts_next : Str → ServiceOperationRecord → Bool
restarts_next task_id op =
    restarting_task op task_id
    && is_some_and (find (λ target. not target.completed) op.tasks)
        (λ target. str_eq target.task_id task_id)

-- The task takes requests for its service.
unfoldable pub takes_requests : ClusterState → (service_id : Str) → TaskRecord → Bool
takes_requests state service_id task =
    str_eq task.service_id service_id
    && is_running task.desired
    && is_healthy task.observed
    && not (any (restarts_next task.id) (values state.service_operations))

-- The address at which the task publishes the port, if its node is known.
unfoldable pub task_address : ClusterState → (target_port : ℕ) → TaskRecord → Option Str
task_address state target_port task = elim (get state.nodes task.node_id) [
  | none ↦ none
  | some node ↦
      elim (find (λ port. port.target == target_port && str_eq port.protocol (codes "tcp"))
        task.ports) [
          | none ↦ none
          | some port ↦
              Option.map (λ published. format_host node.address ++ (b':' ∷ decimal published))
                port.published
        ]
]

unfoldable pub addresses_of : ClusterState → (target_port : ℕ) → List TaskRecord → List Str
addresses_of state target_port [] = []
addresses_of state target_port (task ∷ tasks) = elim (task_address state target_port task) [
  | none ↦ addresses_of state target_port tasks
  | some address ↦ insert_address address (addresses_of state target_port tasks)
]

unfoldable pub service_id_of : (stack_name service_name : Str) → Str
service_id_of stack_name service_name = stack_name ++ (b'.' ∷ service_name)

unfoldable pub addresses : ClusterState → (stack_name : Str) → ServicePortKey → List Str
addresses state stack_name key =
    addresses_of state key.target_port
      (filter (takes_requests state (service_id_of stack_name key.service)) (values state.tasks))

unfoldable pub upstreams_on :
    ClusterState
    → (stack_name : Str) → List ServicePortKey
    → List (ServicePortKey × List Str)
    → List (ServicePortKey × List Str)
upstreams_on state stack_name [] found = found
upstreams_on state stack_name (key ∷ rest) found =
    upstreams_on state stack_name rest (insert_upstream key (addresses state stack_name key) found)

unfoldable pub stack_fragment : ClusterState → (stack_name : Str) → Option RecoveredStackGateway
stack_fragment state stack_name = elim (get state.stacks stack_name) [
  | none ↦ none
  | some stack ↦
      if not (has_routes stack.gateway)
      then none
      else some (record {
        gateway = stack.gateway;
        upstreams = upstreams_on state stack_name (upstream_keys stack.gateway) [];
      })
]

unfoldable pub replace_stack_route : ClusterState → (stack_name : Str) → ClusterState × Bool
replace_stack_route state stack_name = elim (stack_fragment state stack_name) [
  | none ↦ (
    record state { gateway_routes = remove stack_name state.gateway_routes },
    contains_key state.gateway_routes stack_name,
  )
  | some next ↦
      if is_some_and (get state.gateway_routes stack_name) (λ old. same_fragment old next)
      then (state, false)
      else (record state { gateway_routes = insert stack_name next state.gateway_routes }, true)
]

unfoldable pub routed_services : (stack_name : Str) → StackGatewaySpec → List Str
routed_services stack_name gateway =
    map (λ key. service_id_of stack_name key.service) (upstream_keys gateway)

-- Every running task of the routed services has a node that has reported.
unfoldable pub all_running_tasks_reported :
    ClusterState → (stack_name : Str) → StackGatewaySpec → Bool
all_running_tasks_reported state stack_name gateway =
    all (λ task. contains_key state.nodes task.node_id)
      (filter
        (λ task.
          contains (routed_services stack_name gateway) task.service_id && is_running task.desired)
        (values state.tasks))

unfoldable pub refresh_ready_stack_route : ClusterState → (stack_name : Str) → ClusterState × Bool
refresh_ready_stack_route state stack_name = elim (get state.stacks stack_name) [
  | none ↦ (state, false)
  | some stack ↦
      if all_running_tasks_reported state stack_name stack.gateway
      then replace_stack_route state stack_name
      else (state, false)
]

unfoldable pub refresh_routes : ClusterState → List Str → ClusterState × Bool
refresh_routes state [] = (state, false)
refresh_routes state (name ∷ names) =
    let (next, changed) = refresh_ready_stack_route state name in
    let (final, later) = refresh_routes next names in (final, changed || later)

unfoldable pub refresh_ready_stack_routes : ClusterState → ClusterState × Bool
refresh_ready_stack_routes state = refresh_routes state (keys state.stacks)

-- `is_service_routed`.
unfoldable pub is_service_routed : ClusterState → ServiceRecord → Bool
is_service_routed state service = non_empty (service_ports state service)
