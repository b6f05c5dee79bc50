-- ===== src/Operations/Tests.antt =====
-- A rolling restart of two tasks, the first of which is back; a restart of a service with one task,
-- which is accepted; and a token for one day.
use swarmlite.Base.{
  Bool, ◌≡◌, ◌≤◌, ◌⊎◌, max, refl, find, filter, true, false, none, some, [], ◌∷◌, Str, codes, all,
  count, any, str_eq, List, ℕ,
}
use swarmlite.Base.Map.{get, insert, values}
use swarmlite.Cluster.{
  ServiceOperationKind, ServiceOperationStatus, RestartTarget, ServiceOperation,
  ServiceOperationRecord, ClusterState, ObservedTaskState,
}
use swarmlite.Scheduler.Samples.{task, state, live_nodes, service, node}
use swarmlite.Operations.{
  succeed, is_back, is_unavailable, advanced, step_target, step_targets, after_step, is_completed,
  finish, advance_restart, restart_deadline,
}
use swarmlite.Operations.Tokens.{
  DeployToken, token_active, expiry_from_duration, unit_of, strip_last, parse_count, number_on,
  checked_expiry,
}
use swarmlite.Operations.Tokens.Expiry.{is_future, expiry-token_active}
use swarmlite.Operations.Advance.{
  advance_service_operations_locked, prepare, pins_images, candidate_nodes, is_candidate_node,
}
use swarmlite.Scheduler.Constraints.{
  matches_constraints, matches_constraint, option_str_eq, constraint_actual,
}
use swarmlite.Base.Scan.{split_once, trim}
use swarmlite.Operations.Submit.{
  Principal, Submission, submit_service_operation, is_printable_key, may_not, resolve_service,
  submit_new, is_busy, restart_targets, restart_target, preparation, new_operation, new_view,
  principal_id,
}
use swarmlite.Operations.Exclusive.{occupies, advance_service_operations_locked-le}
use swarmlite.Operations.Accepted.{state_of, submit_service_operation_exclusive}
use swarmlite.Operations.Repeated.{repeated}
use swarmlite.Operations.Restart.{IsOneMoved, is_succeeded, advance_restart-one}

abbrev target : Str → Bool → RestartTarget
target id restarted = record {
  task_id = id;
  node_id = codes "a";
  container_id = codes "c";
  image_id = codes "i";
  restarted = restarted;
  completed = false;
  deadline_unix_ms = none;
}

abbrev restarting : ServiceOperationRecord
restarting = record {
  view = record {
    operation_id = codes "op_1";
    service = codes "demo.web";
    kind = ServiceOperationKind.restart;
    status = ServiceOperationStatus.queued;
    phase = codes "restarting";
    revision = 1;
    deployment_generation = none;
    completed_tasks = 0;
    total_tasks = 2;
    stalled = false;
    blocked = false;
    error = none;
  };
  principal_id = codes "admin";
  idempotency_key = codes "k";
  request_hash = [];
  stack = codes "demo";
  generation = 1;
  target_revision = 2;
  image = codes "example/web:v2";
  created_at_unix_ms = 0;
  updated_at_unix_ms = 0;
  finished_at_unix_ms = none;
  source = [];
  tasks = target (codes "t1") true ∷ target (codes "t2") false ∷ [];
  preparing_nodes = [];
  prepared_images = [];
}

abbrev running : ClusterState
running = state (
    (
      codes "t1",
      record (task (codes "t1") (codes "a") 2 ObservedTaskState.healthy []) {
        container_id = some (codes "c");
        image_id = some (codes "i");
      },
    )
    ∷ [])

-- The first target completes, and the second stays as it was.
first_completes :
    (advance_restart running live_nodes restarting 100).tasks
    ≡ record (target (codes "t1") true) { completed = true; deadline_unix_ms = some 130100 }
      ∷ target (codes "t2") false
      ∷ []
unfolding advance_restart finish succeed after_step step_targets step_target advanced is_back
    is_unavailable restart_deadline is_completed all count any get str_eq
first_completes = refl

advance_restart-one_example :
    let next = advance_restart running live_nodes restarting 100 in
    ((next.tasks ≡ restarting.tasks) ⊎ IsOneMoved running restarting.tasks next.tasks)
    × (is_succeeded next.view.status ≡ all is_completed next.tasks)
advance_restart-one_example = advance_restart-one running live_nodes restarting 100

-- A token for one day, made at 100 milliseconds.
abbrev day_token : DeployToken
day_token = record {
  id = codes "t";
  name = codes "ci";
  service_id = codes "demo.web";
  created_at_unix_ms = 100;
  expires_at_unix_ms = some 86400100;
  revoked_at_unix_ms = none;
  token = none;
}

one_day : expiry_from_duration (codes "24h") 100 ≡ some (some 86400100)
unfolding expiry_from_duration str_eq unit_of strip_last parse_count number_on checked_expiry
one_day = refl

no_sign : expiry_from_duration (codes "+1h") 100 ≡ none
unfolding expiry_from_duration str_eq unit_of strip_last parse_count number_on checked_expiry
no_sign = refl

expiry-token_active_example :
    (token_active day_token 100 ≡ true) × (is_future 100 (some 86400100) ≡ true)
expiry-token_active_example =
    expiry-token_active (codes "24h") 100 (some 86400100) day_token one_day refl refl

-- An administrator asks for a restart of the service.
abbrev submission : Submission
submission = record {
  principal = Principal.admin;
  target = codes "demo.web";
  kind = ServiceOperationKind.restart;
  key = codes "k";
  source = [];
  request_hash = codes "h";
  new_id = codes "op_2";
  live = live_nodes;
  now = 5000;
  generation = 4;
}

abbrev serving : ClusterState
serving = record running { services = (codes "demo.web", service 1 1) ∷ [] }

accepted :
    count
      (occupies (codes "demo"))
      (values (state_of serving (submit_service_operation serving submission)).service_operations)
    ≡ 1
unfolding submit_service_operation state_of is_printable_key may_not resolve_service submit_new
    is_busy restart_targets restart_target preparation new_operation new_view principal_id occupies
    insert get values filter find any count all str_eq
accepted = refl

submit_service_operation_exclusive_example :
    count
      (occupies (codes "demo"))
      (values (state_of serving (submit_service_operation serving submission)).service_operations)
    ≤ max 1 (count (occupies (codes "demo")) (values serving.service_operations))
submit_service_operation_exclusive_example =
    submit_service_operation_exclusive serving submission (codes "demo")

abbrev busy : ClusterState
busy = record running { service_operations = (codes "op_1", restarting) ∷ [] }

advance_service_operations_locked-le_example :
    count
      (occupies (codes "demo"))
      (values (advance_service_operations_locked busy live_nodes 100).service_operations)
    ≤ count (occupies (codes "demo")) (values busy.service_operations)
advance_service_operations_locked-le_example =
    advance_service_operations_locked-le busy live_nodes 100 (codes "demo")

abbrev restart_target_1 : RestartTarget
restart_target_1 = target (codes "t1") false

abbrev answer : ClusterState × ServiceOperation
answer = (
  record serving {
    service_operations =
        (codes "op_2", new_operation submission (service 1 1) (restart_target_1 ∷ []) [] 2) ∷ [];
  },
  new_view submission (service 1 1) (restart_target_1 ∷ []),
)

-- Two passes of the controller follow.
abbrev passes : List (ℕ × List Str)
passes = (6000, live_nodes) ∷ (99000, []) ∷ []

abbrev again : Submission
again = repeated 99000 [] (codes "op_3") 8 submission

-- A redeployment that has succeeded, when an agent that may run the service is older.
abbrev redeployed : ServiceOperationRecord
redeployed = record restarting {
  view = record restarting.view {
    kind = ServiceOperationKind.pull_redeploy;
    status = ServiceOperationStatus.succeeded;
    deployment_generation = some 1;
  };
}

abbrev with_older : ClusterState
with_older = record serving {
  nodes = (codes "a", record (node (codes "a")) { supports_service_operations = false }) ∷ [];
}

-- The operation is marked as blocked.
blocked_after : (prepare with_older live_nodes redeployed 100).view.blocked ≡ true
unfolding prepare pins_images candidate_nodes is_candidate_node matches_constraints get values
    filter any all str_eq matches_constraint split_once option_str_eq constraint_actual trim
blocked_after = refl
