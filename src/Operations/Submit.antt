-- ===== src/Operations/Submit.antt =====
-- controller/service_operations.rs: `submit_service_operation`, up to the commit of the new state;
-- controller/stacks.rs: `resolve_service`. The token of the caller has been checked; the hash of the
-- request and the new id are given.
use swarmlite.Base.{
  ℕ, ◌+◌, ◌-◌, min, Bool, true, false, Option, none, some, List, [], ◌∷◌, ◌++◌, ◌&&◌, ◌||◌, not,
  if◌then◌else◌, ltb, leb, ◌==◌, all, any, filter, find, length, is_some, is_some_and, Str, codes,
  str_eq,
}
use swarmlite.Base.Map.{BTreeMap, get, insert, values, keys, contains_key}
use swarmlite.Base.Scan.{starts_with}
use swarmlite.Gateway.PortKey.{decimal_on}
use swarmlite.Cluster.{
  ServiceOperationKind, ServiceOperationStatus, ServiceOperation, RestartTarget,
  ServiceOperationRecord, is_restart, is_pull_redeploy, active, is_active, has_routes,
  ServiceRecord, TaskRecord, is_running, ClusterState,
}
use swarmlite.Scheduler.Ports.{contains}
use swarmlite.Operations.Advance.{candidate_nodes}

pub data Refusal : Type 0 where
  invalid conflict not_found forbidden rate_limited : Refusal

pub data Answer {ℓ} (A : Type ℓ) : Type ℓ where
  ok : A → Answer A
  err : Refusal → Answer A

-- `Principal`.
pub data Principal : Type 0 where
  admin : Principal
  deploy : (token_id service_id : Str) → Principal

unfoldable pub principal_id : Principal → Str
principal_id Principal.admin = codes "admin"
principal_id (Principal.deploy token_id service_id) = token_id

unfoldable pub stack_is_active : ClusterState → (stack_name : Str) → Bool
stack_is_active state stack_name =
    any (λ service. str_eq service.stack stack_name && not service.deleted) (values state.services)
    || is_some_and (get state.stacks stack_name) (λ stack. has_routes stack.gateway)
    || contains_key state.gateway_routes stack_name

abbrev non_empty_text : Str → Bool
non_empty_text [] = false
non_empty_text (c ∷ s) = true

-- A slot is printed with at most ten digits.
unfoldable pub names_slot : (target : Str) → TaskRecord → Bool
names_slot target task =
    str_eq (task.service_id ++ (b'.' ∷ decimal_on 10 (min (task.slot + 1) 0xffffffff) [])) target

unfoldable pub target_matches_task : ClusterState → (target : Str) → Bool
target_matches_task state target =
    contains_key state.tasks target
    || non_empty_text target && any (λ id. starts_with id target) (keys state.tasks)
    || any (names_slot target) (values state.tasks)

unfoldable pub resolve_service : ClusterState → (target : Str) → Answer ServiceRecord
resolve_service state target =
    let unresolved : Answer ServiceRecord =
      (if stack_is_active state target
        then Answer.err Refusal.invalid
        else if target_matches_task state target
        then Answer.err Refusal.invalid
        else Answer.err Refusal.not_found) in
    elim (get state.services target) [
      | none ↦ unresolved
      | some service ↦ if service.deleted then unresolved else Answer.ok service
    ]

-- A printable key of 1 to 256 bytes.
unfoldable pub is_printable_key : Str → Bool
is_printable_key key =
    non_empty_text key && leb (length key) 256 && all (λ byte. leb 0x21 byte && leb byte 0x7e) key

-- A deploy token is for the redeployment of its service.
unfoldable pub may_not : Principal → (target : Str) → ServiceOperationKind → Bool
may_not Principal.admin target kind = false
may_not (Principal.deploy token_id service_id) target kind =
    not (str_eq service_id target) || not (is_pull_redeploy kind)

abbrev pub is_deploy : Principal → Bool
is_deploy Principal.admin = false
is_deploy (Principal.deploy token_id service_id) = true

-- The stack has an active operation or an active deployment.
unfoldable pub is_busy : ClusterState → (stack : Str) → Bool
is_busy state stack =
    any (λ op. str_eq op.stack stack && active op.view.status) (values state.service_operations)
    || is_some_and (get state.stacks stack)
        (λ s. is_some_and s.deployment (λ d. is_active d.status))

-- A task of the service as a target; `none` where it cannot be restarted.
unfoldable pub restart_target :
    ClusterState → ServiceRecord → (live : List Str) → TaskRecord → Option RestartTarget
restart_target state service live task =
    if not (task.revision == service.revision)
      || not (contains live task.node_id)
      || not (is_some_and (get state.nodes task.node_id) (λ node. node.supports_service_operations))
    then none
    else elim task.container_id [
      | none ↦ none
      | some container_id ↦ elim task.image_id [
        | none ↦ none
        | some image_id ↦ some (record {
          task_id = task.id;
          node_id = task.node_id;
          container_id = container_id;
          image_id = image_id;
          restarted = false;
          completed = false;
          deadline_unix_ms = none;
        })
      ]
    ]

unfoldable pub restart_targets :
    ClusterState → ServiceRecord → (live : List Str) → List TaskRecord → Option (List RestartTarget)
restart_targets state service live [] = some []
restart_targets state service live (task ∷ tasks) = elim (restart_target state service live task) [
  | none ↦ none
  | some target ↦ elim (restart_targets state service live tasks) [
    | none ↦ none
    | some rest ↦ some (target ∷ rest)
  ]
]

abbrev u64_max : ℕ
u64_max = 0xffffffffffffffff

-- What a call is given.
pub record Submission : Type 0 where
  pub principal : Principal
  pub target : Str
  pub kind : ServiceOperationKind
  pub key : Str
  pub source : BTreeMap Str
  pub request_hash : Str
  pub new_id : Str
  pub live : List Str
  pub now : ℕ
  pub generation : ℕ

unfoldable pub new_view : Submission → ServiceRecord → List RestartTarget → ServiceOperation
new_view request service tasks = record {
  operation_id = request.new_id;
  service = service.id;
  kind = request.kind;
  status = ServiceOperationStatus.queued;
  phase = (if is_restart request.kind then codes "restarting" else codes "pulling");
  revision = 1;
  deployment_generation = none;
  completed_tasks = 0;
  total_tasks = length tasks;
  stalled = false;
  blocked = false;
  error = none;
}

unfoldable pub new_operation :
    Submission
    → ServiceRecord
    → List RestartTarget
    → (preparing_nodes : List Str) → (target_revision : ℕ) → ServiceOperationRecord
new_operation request service tasks preparing_nodes target_revision = record {
  view = new_view request service tasks;
  principal_id = principal_id request.principal;
  idempotency_key = request.key;
  request_hash = request.request_hash;
  stack = service.stack;
  generation = request.generation + 1;
  target_revision = target_revision;
  image = service.spec.image;
  created_at_unix_ms = request.now;
  updated_at_unix_ms = request.now;
  finished_at_unix_ms = none;
  source = request.source;
  tasks = tasks;
  preparing_nodes = preparing_nodes;
  prepared_images = [];
}

-- The nodes to prepare and the revision to reach.
unfoldable pub preparation : ClusterState → Submission → ServiceRecord → Answer (List Str × ℕ)
preparation state request service =
    if is_pull_redeploy request.kind
    then elim (candidate_nodes state service request.live) [
      | none ↦ Answer.err Refusal.conflict
      | some nodes ↦
          if service.revision == u64_max
          then Answer.err Refusal.invalid
          else Answer.ok (nodes, service.revision + 1)
    ]
    else Answer.ok ([], service.revision)

-- The same caller has used the key before.
unfoldable pub is_repeat : Submission → ServiceOperationRecord → Bool
is_repeat request op =
    str_eq op.principal_id (principal_id request.principal) && str_eq op.idempotency_key request.key

-- The caller has started an operation within the last second.
unfoldable pub is_too_soon : Submission → ServiceOperationRecord → Bool
is_too_soon request op =
    str_eq op.principal_id (principal_id request.principal)
    && ltb (request.now - op.created_at_unix_ms) 1000

-- A new operation on a service that is resolved.
unfoldable pub submit_new :
    ClusterState → Submission → ServiceRecord → Answer (ClusterState × ServiceOperation)
submit_new state request service =
    if is_deploy request.principal && not (str_eq service.id request.target)
    then Answer.err Refusal.forbidden
    else if is_some service.spec.job || service.spec.replicas == 0
    then Answer.err Refusal.invalid
    else if is_busy state service.stack
    then Answer.err Refusal.conflict
    else if any (is_too_soon request) (values state.service_operations)
    then Answer.err Refusal.rate_limited
    else elim (restart_targets state service request.live (
        filter (λ task. str_eq task.service_id service.id && is_running task.desired)
          (values state.tasks))) [
            | none ↦ Answer.err Refusal.conflict
            | some tasks ↦
                if not (length tasks == service.spec.replicas)
                then Answer.err Refusal.conflict
                else elim (preparation state request service) [
                  | Answer.err e ↦ Answer.err e
                  | Answer.ok (nodes, target_revision) ↦ Answer.ok (
                    record state {
                      service_operations =
                          insert request.new_id
                            (new_operation request service tasks nodes target_revision)
                            state.service_operations;
                    },
                    new_view request service tasks,
                  )
                ]
          ]

unfoldable pub submit_service_operation :
    ClusterState → Submission → Answer (ClusterState × ServiceOperation)
submit_service_operation state request =
    if not (is_printable_key request.key)
    then Answer.err Refusal.invalid
    else if may_not request.principal request.target request.kind
    then Answer.err Refusal.forbidden
    else elim (find (is_repeat request) (values state.service_operations)) [
      | some existing ↦
          if str_eq existing.request_hash request.request_hash
          then Answer.ok (state, existing.view)
          else Answer.err Refusal.conflict
      | none ↦ elim (resolve_service state request.target) [
        | Answer.err e ↦ Answer.err e
        | Answer.ok service ↦ submit_new state request service
      ]
    ]
