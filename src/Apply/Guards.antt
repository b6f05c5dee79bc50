-- ===== src/Apply/Guards.antt =====
-- What `apply_guarded` refuses: deployment.rs, `validate_apply_locked`, and
-- crates/swarmlite-controller/src/controller/stacks.rs, `validate_gateway_hostname_ownership`.
use swarmlite.Base.{
  ℕ, ◌+◌, Bool, Option, none, some, List, [], ◌∷◌, ◌++◌, map, ◌&&◌, ◌||◌, not, if◌then◌else◌, ◌==◌,
  any, filter, is_some, is_none, is_some_and, Str, str_eq,
}
use swarmlite.Base.Map.{BTreeMap, get, insert, values, contains_key}
use swarmlite.Base.Scan.{rsplit_once}
use swarmlite.Gateway.PortKey.{parse_u16}
use swarmlite.Scheduler.Ports.{contains, contains_ℕ}
use swarmlite.Cluster.{
  StackGatewaySpec, HttpRouteSpec, has_routes, is_active, active, ServiceSpec, ServiceRecord,
  ServiceOperationRecord, RecoveredStackGateway, StackRecord, ClusterState,
}
use swarmlite.Kv.Locks.{ControllerError, Response}
use swarmlite.Apply.Plan.{RevisionPolicy, u64_max}
use swarmlite.Apply.Services.{service_id}

unfoldable pub hostnames : List HttpRouteSpec → List Str
hostnames [] = []
hostnames (route ∷ routes) = route.hostnames ++ hostnames routes

unfoldable pub tcp_ports : StackGatewaySpec → List ℕ
tcp_ports gateway = map (λ route. route.listen) gateway.tcp_routes

-- The specifications of stacks by their owner.
abbrev pub Owned : Type 0
Owned = List (Str × StackGatewaySpec)

unfoldable pub stack_gateways : BTreeMap StackRecord → Owned
stack_gateways [] = []
stack_gateways ((name, stack) ∷ stacks) = (name, stack.gateway) ∷ stack_gateways stacks

unfoldable pub route_gateways : BTreeMap RecoveredStackGateway → Owned
route_gateways [] = []
route_gateways ((name, fragment) ∷ routes) = (name, fragment.gateway) ∷ route_gateways routes

-- `owners.entry(owner).or_insert(..)`.
unfoldable pub or_insert : Owned → Owned → Owned
or_insert [] owners = owners
or_insert ((name, gateway) ∷ rest) owners =
    or_insert rest (if contains_key owners name then owners else insert name gateway owners)

unfoldable pub takes_port :
    (stack_name : Str) → (requested : List ℕ) → Str × StackGatewaySpec → Bool
takes_port stack_name requested (owner, spec) =
    not (str_eq owner stack_name) && any (contains_ℕ requested) (tcp_ports spec)

unfoldable pub takes_hostname :
    (stack_name : Str) → (requested : List Str) → Str × StackGatewaySpec → Bool
takes_hostname stack_name requested (owner, spec) =
    not (str_eq owner stack_name) && any (contains requested) (hostnames spec.http_routes)

-- `Ok(())` or a conflict.
unfoldable pub validate_gateway_hostname_ownership :
    ClusterState → (stack_name : Str) → StackGatewaySpec → Response (Unit {0})
validate_gateway_hostname_ownership state stack_name gateway =
    if any (takes_port stack_name (tcp_ports gateway))
      (stack_gateways state.stacks ++ route_gateways state.gateway_routes)
    then Response.err ControllerError.conflict
    else if any (takes_hostname stack_name (hostnames gateway.http_routes))
        (or_insert (stack_gateways state.stacks) (route_gateways state.gateway_routes))
    then Response.err ControllerError.conflict
    else Response.ok tt

-- A TCP route listens where the gateway listens for HTTP.
unfoldable pub clashes_with_listener : (listen : List Str) → (port : ℕ) → Bool
clashes_with_listener listen port =
    any
      (λ address.
        is_some_and (rsplit_once b':' address)
          (λ parts. is_some_and (parse_u16 parts.1) (λ p. p == port)))
      listen

unfoldable pub validate_apply_locked :
    ClusterState
    → (generation : ℕ) → (listen : List Str) → (stack_name : Str) → StackGatewaySpec
    → (replace : Bool) → Response (Unit {0})
validate_apply_locked state generation listen stack_name gateway replace =
    let deploys =
      is_some_and (get state.stacks stack_name)
        (λ stack. is_some_and stack.deployment (λ deployment. is_active deployment.status)) in
    let has_gateway = any (λ member. member.gateway_enabled) (values state.members) in
    if deploys && not replace
    then Response.err ControllerError.conflict
    else if not has_gateway && has_routes gateway
    then Response.err ControllerError.invalid
    else elim (validate_gateway_hostname_ownership state stack_name gateway) [
      | Response.err e ↦ Response.err e
      | Response.ok u ↦
          if any (clashes_with_listener listen) (tcp_ports gateway)
          then Response.err ControllerError.invalid
          else if generation == u64_max
          then Response.err ControllerError.invalid
          else Response.ok tt
    ]

-- The operation that a prepared deployment belongs to.
unfoldable pub owned_operation : RevisionPolicy → Option Str
owned_operation (RevisionPolicy.prepared target id) = some id
owned_operation _ = none

-- The operation does not fit the service any more.
unfoldable pub has_moved_on : ServiceOperationRecord → ServiceRecord → Bool
has_moved_on op service =
    not (active op.view.status)
    || is_some op.view.deployment_generation
    || not (service.revision + 1 == op.target_revision && not (service.revision == u64_max))
    || not (str_eq service.spec.image op.image)

unfoldable pub validate_prepared : ClusterState → RevisionPolicy → Response (Unit {0})
validate_prepared state policy = elim (owned_operation policy) [
  | none ↦ Response.ok tt
  | some id ↦ elim (get state.service_operations id) [
    | none ↦ Response.err ControllerError.conflict
    | some op ↦ elim (get state.services op.view.service) [
      | none ↦ Response.err ControllerError.conflict
      | some service ↦
          if has_moved_on op service then Response.err ControllerError.conflict else Response.ok tt
    ]
  ]
]

-- Another active operation on the stack.
unfoldable pub is_conflicting :
    (stack_name : Str) → (owned : Option Str) → ServiceOperationRecord → Bool
is_conflicting stack_name owned op =
    str_eq op.stack stack_name
    && active op.view.status
    && not (is_some_and owned (λ id. str_eq op.view.operation_id id))

unfoldable pub conflicting : ClusterState → (stack_name : Str) → (owned : Option Str) → List Str
conflicting state stack_name owned =
    map (λ op. op.view.operation_id)
      (filter (is_conflicting stack_name owned) (values state.service_operations))

-- A service becomes a job, or a job a service.
unfoldable pub changes_kind : ClusterState → (stack_name : Str) → Str × ServiceSpec → Bool
changes_kind state stack_name (name, spec) =
    is_some_and (get state.services (service_id stack_name name))
      (λ s. not (if is_some s.spec.job then is_some spec.job else is_none spec.job))
