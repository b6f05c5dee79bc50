-- ===== src/Apply/Tests.antt =====
-- Runs of the functions that start a deployment, and the theorems at those inputs.
use swarmlite.Base.{
  ℕ, ◌≤◌, ◌≡◌, ◌≢◌, ◌⊎◌, refl, true, false, none, some, [], ◌∷◌, ◌++◌, Memᴰ, length, any, Str,
  codes, str_eq, str_lt, str_eq_iff, sym, inr,
}
use native.Mathlib.Decide.{ℕ_discrete}
use swarmlite.Base.Map.{get, insert, keys, values, map_values, BTreeMap}
use swarmlite.Base.Scan.{contains_char, rsplit_once}
use swarmlite.Scheduler.Ports.{contains, contains_ℕ}
use swarmlite.Scheduler.Samples.{service, spec, updating, live_nodes}
use swarmlite.Cluster.{
  GatewayTlsMode, GatewayHttpMode, StackGatewaySpec, ServiceSpec, StackDeploymentStatus,
  StackDeploymentRecord, StackRecord, RecoveredStackGateway, ClusterState, same_spec,
  ServiceSpec-discrete, is_active,
}
use swarmlite.Deployment.{deployment_of}
use swarmlite.Deployment.Judged.{is_distinct}
use swarmlite.Deployment.Moves.{is_consistent}
use swarmlite.Apply.Plan.{
  RevisionPolicy, forces, preserves, image_name, image_uses_latest_tag, service_changed,
  service_update_plan,
}
use swarmlite.Apply.Services.{
  service_id, mark_deleted, Applied, new_service, updated, apply_plan, apply_service,
  apply_services, desired_ids_of, start,
}
use swarmlite.Apply.History.{History, insert_generation, supersede, history_with}
use swarmlite.Apply.Guards.{
  hostnames, tcp_ports, stack_gateways, route_gateways, or_insert, takes_port, takes_hostname,
  validate_gateway_hostname_ownership,
}
use swarmlite.Apply.Retry.{retry_stack_deployment, retried, can_be_retried, has_failed}
use swarmlite.Apply.Revisions.{IsUpdated}
use swarmlite.Apply.Requested.{is_keyed, apply_services-IsUpdated}
use swarmlite.Apply.Bounds.{history_with-newest}
use swarmlite.Kv.Locks.{Response}
use swarmlite.Apply.Ownership.{
  Reserves, validate_gateway_hostname_ownership-ports,
  validate_gateway_hostname_ownership-hostnames,
}
use swarmlite.Apply.Retried.{retry_stack_deployment-is_consistent}

-- The service is there with one replica, and two are wanted.
abbrev previous : ClusterState
previous = record updating { services = (codes "demo.web", service 1 1) ∷ [] }

abbrev specs : BTreeMap ServiceSpec
specs = (codes "web", spec 2 1) ∷ (codes "worker", spec 1 1) ∷ []

abbrev worker : ServiceSpec
worker = spec 1 1

abbrev result : Applied
result = record {
  services =
      (codes "demo.web", record (service 1 1) { revision = 3; spec = spec 2 1 })
      ∷ (
        codes "demo.worker",
        record {
          job_cursor = none;
          id = codes "demo.worker";
          stack = codes "demo";
          name = codes "worker";
          revision = 1;
          spec = worker;
          deleted = false;
        },
      )
      ∷ [];
  new_service_ids = codes "demo.worker" ∷ [];
  image_resolutions = [];
}

applying : Unit {0}
unfolding apply_services apply_service apply_plan updated service_update_plan service_changed forces
    preserves start desired_ids_of mark_deleted service_id get insert keys map_values str_eq any
    same_spec is_distinct is_keyed ServiceSpec-discrete ℕ_discrete str_lt new_service
applying = tt

went_through :
    apply_services previous RevisionPolicy.detect_changes live_nodes
      (codes "demo")
      (λ name. false)
      specs
      (start previous (codes "demo") specs)
    ≡ some result
unfolding applying
went_through = refl

apply_services-IsUpdated_example :
    IsUpdated previous RevisionPolicy.detect_changes live_nodes
      (codes "demo")
      (λ name. false)
      (codes "web")
      (spec 2 1)
      (get previous.services (service_id (codes "demo") (codes "web")))
      (get result.services (service_id (codes "demo") (codes "web")))
unfolding applying
apply_services-IsUpdated_example =
    apply_services-IsUpdated previous RevisionPolicy.detect_changes live_nodes (codes "demo")
      (λ name. false) specs result (codes "web") (spec 2 1) refl refl went_through refl

latest : image_uses_latest_tag (codes "localhost:5000/nginx") ≡ true
unfolding image_uses_latest_tag image_name contains_char any rsplit_once
latest = refl

no_routes : StackGatewaySpec
no_routes = record {
  tls = GatewayTlsMode.serve;
  http = GatewayHttpMode.redirect;
  trusted_proxies = [];
  http_routes = [];
  tcp_routes = [];
}

abbrev failed_deployment : StackDeploymentRecord
failed_deployment = record {
  generation = 7;
  status = StackDeploymentStatus.failed;
  started_at_unix_ms = 1000;
  last_progress_at_unix_ms = 1000;
  progress_deadline_seconds = 600;
  wait_for_gateway = false;
  finished_at_unix_ms = some 2000;
  superseded_by = none;
  retry_revision = 0;
  errors = [];
  image_resolutions = [];
  conditions = [];
  snapshot = record { services = []; gateway = no_routes };
}

abbrev stack : StackGatewaySpec → StackRecord
stack gateway = record {
  name = codes "other";
  applied_at_unix_ms = 1000;
  services = [];
  gateway = gateway;
  deployment = some failed_deployment;
  deployment_history = [];
}

history_with-newest_example :
    (length (history_with 3000 9 (some failed_deployment) []) ≤ 20)
    × ((gone : History) × (insert_generation 7 (supersede 3000 9 failed_deployment) []
          ≡ gone ++ history_with 3000 9 (some failed_deployment) [])
        × ((gone ≡ []) ⊎ (length (history_with 3000 9 (some failed_deployment) []) ≡ 20)))
history_with-newest_example = history_with-newest 3000 9 failed_deployment []

-- A gateway section with one TCP port and one hostname.
abbrev gateway : ℕ → Str → StackGatewaySpec
gateway port hostname = record {
  tls = GatewayTlsMode.serve;
  http = GatewayHttpMode.redirect;
  trusted_proxies = [];
  http_routes =
      (record {
        hostnames = hostname ∷ [];
        canonical_hostname = none;
        tls = none;
        http = none;
        trusted_proxies = none;
        rules = [];
      })
      ∷ [];
  tcp_routes =
      record { listen = port; backend = record { service = codes "db"; port = 5432 } } ∷ [];
}

abbrev others : RecoveredStackGateway
others = record { gateway = gateway 6000 (codes "b.example"); upstreams = [] }

abbrev owned : ClusterState
owned = record updating {
  stacks = (codes "other", stack (gateway 6000 (codes "b.example"))) ∷ [];
  gateway_routes = (codes "other", others) ∷ [];
}

guarding : Unit {0}
unfolding validate_gateway_hostname_ownership takes_port takes_hostname tcp_ports hostnames
    stack_gateways route_gateways or_insert any str_eq get insert
guarding = tt

not_demo : codes "other" ≢ codes "demo"
unfolding str_eq
not_demo e = cc (sym ((str_eq_iff (codes "other") (codes "demo")).1 e))

validate_gateway_hostname_ownership-ports_example :
    contains_ℕ (tcp_ports (gateway 5432 (codes "a.example"))) 6000 ≡ false
unfolding guarding
validate_gateway_hostname_ownership-ports_example =
    validate_gateway_hostname_ownership-ports owned (codes "demo") (codes "other")
      (gateway 5432 (codes "a.example")) (stack (gateway 6000 (codes "b.example"))) 6000 refl refl
      not_demo (Memᴰ.head refl)

-- The other stack waits for its first route.
abbrev pending : ClusterState
pending = record owned { gateway_routes = [] }

reserved : Reserves pending (codes "other") (gateway 6000 (codes "b.example"))
unfolding guarding
reserved = inr (refl, (stack (gateway 6000 (codes "b.example")), refl, refl))

validate_gateway_hostname_ownership-hostnames_example :
    contains (hostnames (gateway 5432 (codes "a.example")).http_routes) (codes "b.example") ≡ false
unfolding guarding
validate_gateway_hostname_ownership-hostnames_example =
    validate_gateway_hostname_ownership-hostnames pending (codes "demo") (codes "other")
      (gateway 5432 (codes "a.example")) (gateway 6000 (codes "b.example")) (codes "b.example") refl
      reserved not_demo (Memᴰ.head refl)

-- The other stack still serves `b.example`, and its record asks for `a.example`.
abbrev changing : ClusterState
changing = record owned { stacks = (codes "other", stack (gateway 6000 (codes "a.example"))) ∷ [] }

-- A request for `a.example` is accepted.
unreserved :
    validate_gateway_hostname_ownership changing (codes "demo") (gateway 5432 (codes "a.example"))
    ≡ Response.ok tt
unfolding guarding
unreserved = refl

retrying : Unit {0}
unfolding retry_stack_deployment can_be_retried deployment_of get str_eq values any
retrying = tt

again : ClusterState
again = retried owned (codes "other") [] 7 5000

retry_stack_deployment-is_consistent_example :
    (d : StackDeploymentRecord) × (e : StackDeploymentRecord) × (deployment_of owned (codes "other")
      ≡ some d)
    × (deployment_of again (codes "other") ≡ some e)
    × (can_be_retried d.status ≡ true)
    × (e.generation ≡ d.generation)
    × (is_active e.status ≡ true)
    × (is_consistent e ≡ true)
    × (e.errors ≡ [])
    × (any (λ r. has_failed r.status) (values e.image_resolutions) ≡ false)
unfolding retrying again
retry_stack_deployment-is_consistent_example =
    retry_stack_deployment-is_consistent owned again (codes "other") 5000 refl

-- The service `c` of the stack `a.b` and the service `b.c` of the stack `a` have one id.
same_service_id : service_id (codes "a.b") (codes "c") ≡ service_id (codes "a") (codes "b.c")
unfolding service_id
same_service_id = refl
