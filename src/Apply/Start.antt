-- ===== src/Apply/Start.antt =====
-- deployment.rs, `apply_guarded`: from the guards to the state that is committed. The readiness of
-- the gateways, which depends on their reports, is a parameter.
use swarmlite.Base.{
  ℕ, ◌+◌, Bool, true, false, Option, none, some, List, [], ◌∷◌, ◌&&◌, ◌||◌, not, if◌then◌else◌, ltb,
  any, Str, codes,
}
use swarmlite.Base.Map.{BTreeMap, get, insert, update}
use swarmlite.Cluster.{
  GatewayTlsMode, GatewayHttpMode, StackGatewaySpec, has_routes, routed_service_ports, ServiceSpec,
  ServiceOperationRecord, StackRecord, StackDeploymentRecord, StackDeploymentStatus,
  DeploymentImageResolutionRecord, RegistryCredential, ClusterState,
}
use swarmlite.Operations.{fail}
use swarmlite.Scheduler.Reconcile.{reconcile}
use swarmlite.Gateway.Routes.{replace_stack_route}
use swarmlite.Recovery.{restore_unclaimed_service_revisions, adopt_unclaimed_tasks}
use swarmlite.Deployment.{refresh_stack_deployments, deployment_of}
use swarmlite.Kv.Locks.{ControllerError, Response}
use swarmlite.Apply.Plan.{RevisionPolicy}
use swarmlite.Apply.Services.{Applied, apply_services, start, desired_ids_of}
use swarmlite.Apply.History.{History, history_with}
use swarmlite.Apply.Guards.{
  owned_operation, validate_prepared, conflicting, validate_apply_locked, changes_kind,
}

unfoldable pub superseded : (now_unix_ms : ℕ) → ServiceOperationRecord → ServiceOperationRecord
superseded now_unix_ms op =
    let failed = fail op (codes "superseded") now_unix_ms in
    record failed { view = record failed.view { revision = failed.view.revision + 1 } }

unfoldable pub supersede_operations :
    (now_unix_ms : ℕ) → List Str → BTreeMap ServiceOperationRecord → BTreeMap ServiceOperationRecord
supersede_operations now_unix_ms [] operations = operations
supersede_operations now_unix_ms (id ∷ ids) operations =
    supersede_operations now_unix_ms ids (update id (superseded now_unix_ms) operations)

unfoldable pub extend :
    BTreeMap RegistryCredential → BTreeMap RegistryCredential → BTreeMap RegistryCredential
extend credentials [] = credentials
extend credentials ((k, v) ∷ rest) = extend (insert k v credentials) rest

unfoldable pub default_gateway : StackGatewaySpec
default_gateway = record {
  tls = GatewayTlsMode.serve;
  http = GatewayHttpMode.redirect;
  trusted_proxies = [];
  http_routes = [];
  tcp_routes = [];
}

-- The gateway section that is served, or the one that is wanted.
unfoldable pub previous_gateway : ClusterState → (stack_name : Str) → StackGatewaySpec
previous_gateway state stack_name = elim (get state.gateway_routes stack_name) [
  | some fragment ↦ fragment.gateway
  | none ↦ elim (get state.stacks stack_name) [
    | some stack ↦ stack.gateway
    | none ↦ default_gateway
  ]
]

unfoldable pub same_ports : List ℕ → List ℕ → Bool
same_ports [] [] = true
same_ports (p ∷ ps) (q ∷ qs) = (if ltb p q then false else not (ltb q p)) && same_ports ps qs
same_ports _ _ = false

unfoldable pub deployment_history : ClusterState → (stack_name : Str) → History
deployment_history state stack_name = elim (get state.stacks stack_name) [
  | none ↦ []
  | some stack ↦ stack.deployment_history
]

unfoldable pub new_deployment :
    (generation now_unix_ms progress_deadline_seconds : ℕ)
    → (wait_for_gateway : Bool) → BTreeMap DeploymentImageResolutionRecord
    → BTreeMap ServiceSpec
    → StackGatewaySpec
    → StackDeploymentRecord
new_deployment generation now_unix_ms progress_deadline_seconds wait_for_gateway image_resolutions
      services gateway =
    record {
      generation = generation;
      status = StackDeploymentStatus.reconciling;
      started_at_unix_ms = now_unix_ms;
      last_progress_at_unix_ms = now_unix_ms;
      progress_deadline_seconds = progress_deadline_seconds;
      wait_for_gateway = wait_for_gateway;
      finished_at_unix_ms = none;
      superseded_by = none;
      retry_revision = 0;
      errors = [];
      image_resolutions = image_resolutions;
      conditions = [];
      snapshot = record { services = services; gateway = gateway };
    }

unfoldable pub deploying_operation :
    (generation now_unix_ms : ℕ) → ServiceOperationRecord → ServiceOperationRecord
deploying_operation generation now_unix_ms operation = record operation {
  view = record operation.view {
    deployment_generation = some generation;
    phase = codes "waiting_health";
    revision = operation.view.revision + 1;
  };
  updated_at_unix_ms = now_unix_ms;
}

-- What a call of `apply_guarded` is given, besides the cluster state.
pub record Request : Type 0 where
  pub stack_name : Str
  pub services : BTreeMap ServiceSpec
  pub gateway : StackGatewaySpec
  pub revision_policy : RevisionPolicy
  pub registry_credentials : BTreeMap RegistryCredential
  pub replace : Bool

-- The parts of the controller that `apply_guarded` reads.
pub record Context : Type 0 where
  pub generation : ℕ
  pub live : List Str
  pub now_unix_ms : ℕ
  pub progress_deadline_seconds : ℕ
  pub listen : List Str

module _ (context : Context) (request : Request) where
  -- The loop over the services has gone through.
  unfoldable pub stack_record : ClusterState → Applied → StackRecord
  stack_record previous applied = record {
    name = request.stack_name;
    applied_at_unix_ms = context.now_unix_ms;
    services = desired_ids_of request.stack_name request.services;
    gateway = request.gateway;
    deployment = some (
        new_deployment (context.generation + 1) context.now_unix_ms
          context.progress_deadline_seconds
          (has_routes (previous_gateway previous request.stack_name) || has_routes request.gateway)
          applied.image_resolutions request.services request.gateway);
    deployment_history =
        history_with context.now_unix_ms (context.generation + 1)
          (deployment_of previous request.stack_name)
          (deployment_history previous request.stack_name);
  }

  unfoldable pub with_stack : ClusterState → Applied → ClusterState
  with_stack previous applied = record previous {
    service_operations =
        supersede_operations context.now_unix_ms
          (conflicting previous request.stack_name (owned_operation request.revision_policy))
          previous.service_operations;
    registry_credentials = extend previous.registry_credentials request.registry_credentials;
    services = applied.services;
    stacks = insert request.stack_name (stack_record previous applied) previous.stacks;
  }

  unfoldable pub with_operation : ClusterState → ClusterState
  with_operation state = elim (owned_operation request.revision_policy) [
    | none ↦ state
    | some id ↦ record state {
      service_operations =
          update id (deploying_operation (context.generation + 1) context.now_unix_ms)
            state.service_operations;
    }
  ]

  unfoldable pub routing_ports_changed : ClusterState → Str → Bool
  routing_ports_changed previous name = not (
      same_ports (routed_service_ports (previous_gateway previous request.stack_name) name)
        (routed_service_ports request.gateway name))

  -- The refusals, in their order.
  unfoldable pub check_apply : ClusterState → Response (Unit {0})
  check_apply state = elim (validate_prepared state request.revision_policy) [
    | Response.err e ↦ Response.err e
    | Response.ok u ↦
        if any (λ id. true)
            (conflicting state request.stack_name (owned_operation request.revision_policy))
          && not request.replace
        then Response.err ControllerError.conflict
        else elim (validate_apply_locked state context.generation context.listen request.stack_name
            request.gateway request.replace) [
              | Response.err e ↦ Response.err e
              | Response.ok v ↦
                  if any (changes_kind state request.stack_name) request.services
                  then Response.err ControllerError.invalid
                  else Response.ok tt
            ]
  ]

  module _ (new_v4 : ClusterState → Str) (occurrence : Str → Str → ℕ → Option ℕ)
      (service_spec_hash : ServiceSpec → Str) (gateway_ready : ClusterState → Bool)
      (unready_tcp : ClusterState → List Str) where
    unfoldable pub settle : ClusterState → Applied → ClusterState
    settle previous applied =
        let restored =
          restore_unclaimed_service_revisions service_spec_hash (with_stack previous applied)
            applied.new_service_ids in
        let adopted =
          adopt_unclaimed_tasks service_spec_hash (with_operation restored) request.stack_name in
        let reconciled = (reconcile new_v4 occurrence adopted context.live context.now_unix_ms).0 in
        let routed = (replace_stack_route reconciled request.stack_name).0 in
        (refresh_stack_deployments context.now_unix_ms (gateway_ready routed) (unready_tcp routed)
          routed).0

    unfoldable pub apply_guarded : ClusterState → Response ClusterState
    apply_guarded state = elim (check_apply state) [
      | Response.err e ↦ Response.err e
      | Response.ok u ↦
          elim (apply_services state request.revision_policy context.live request.stack_name
            (routing_ports_changed state) request.services
            (start state request.stack_name request.services)) [
              | none ↦ Response.err ControllerError.invalid
              | some applied ↦ Response.ok (settle state applied)
            ]
    ]
