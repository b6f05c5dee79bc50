-- ===== src/Operations.antt =====
-- crates/swarmlite-controller/src/controller/service_operations.rs. This file is the case `Restart`
-- of `advance_service_operations_locked`: how a rolling restart of a service advances; Advance is the
-- rest of that function, Submit is how an operation is accepted, and Tokens is about deploy tokens.
-- `Step` is what the loop does with the first target that is not complete.
use mathlib.Core.Option
use swarmlite.Base.{
  ℕ, ◌+◌, ◌*◌, min, Bool, true, false, Option, none, some, List, [], ◌∷◌, ◌&&◌, ◌||◌, not,
  if◌then◌else◌, ltb, leb, all, count, any, is_some_and, is_none_or, is_none, Str, codes, str_eq,
}
use swarmlite.Base.Map.{get}
use swarmlite.Cluster.{
  ServiceOperationStatus, RestartTarget, ServiceOperationRecord, TaskRecord, ClusterState,
  is_running, is_healthy,
}
use swarmlite.Scheduler.Ports.{contains}
pub mod Restart
pub mod Tokens
pub mod Advance
pub mod Submit
pub mod Kept
pub mod Exclusive
pub mod Outcome
pub mod Accepted
pub mod Repeated
pub mod Once
mod Tests

-- `fail` and `succeed`.
unfoldable pub fail : ServiceOperationRecord → Str → ℕ → ServiceOperationRecord
fail operation error now = record operation {
  view = record operation.view {
    status = ServiceOperationStatus.failed;
    phase = codes "failed";
    error = some error;
  };
  finished_at_unix_ms = some now;
}

unfoldable pub succeed : ServiceOperationRecord → ℕ → ServiceOperationRecord
succeed operation now = record operation {
  view = record operation.view {
    error = none;
    blocked = false;
    stalled = false;
    status = ServiceOperationStatus.succeeded;
    phase = codes "complete";
    completed_tasks = operation.view.total_tasks;
  };
  finished_at_unix_ms = some now;
}

abbrev opt_is : Option Str → Str → Bool
opt_is o s = is_some_and o (λ t. str_eq t s)

-- The node is gone, or the task is not the container of the target any more.
unfoldable pub is_unavailable : ClusterState → List Str → RestartTarget → Bool
is_unavailable state live target =
    not (contains live target.node_id)
    || is_none_or (get state.tasks target.task_id) (λ task.
      is_some_and task.container_id (λ id. not (str_eq id target.container_id))
      || not (is_running task.desired))

-- The restarted container runs the target's image and is healthy.
unfoldable pub is_back : ClusterState → RestartTarget → Bool
is_back state target = is_some_and (get state.tasks target.task_id) (λ task.
    opt_is task.container_id target.container_id
    && opt_is task.image_id target.image_id
    && is_healthy task.observed)

-- The service's grace period, in seconds, plus two minutes.
unfoldable pub restart_deadline : ClusterState → Str → ℕ → ℕ
restart_deadline state service now =
    let grace : ℕ = elim (get state.services service) [
      | none ↦ 10
      | some record_of ↦ record_of.spec.stop_grace_period_seconds
    ] in
    let seconds = min (grace + 120) 0xffffffffffffffff in
    let millis = min (min (seconds * 1000) 0xffffffffffffffff) 0x7fffffffffffffff in
    min (now + millis) 0x7fffffffffffffff

unfoldable pub advanced : ClusterState → Str → ℕ → RestartTarget → RestartTarget
advanced state service now target = record target {
  deadline_unix_ms =
      (if is_none target.deadline_unix_ms
        then some (restart_deadline state service now)
        else target.deadline_unix_ms);
  completed = target.completed || target.restarted && is_back state target;
}

pub data Step : Type 0 where
  nothing_left : Step
  failed : Str → Step
  moved : List RestartTarget → Str → Step

abbrev behind : RestartTarget → Step → Step
behind t nothing_left = nothing_left
behind t (failed e) = failed e
behind t (moved ts phase) = moved (t ∷ ts) phase

unfoldable pub step_target :
    ClusterState → List Str → Str → ℕ → RestartTarget → List RestartTarget → Step
step_target state live service now target rest =
    if is_unavailable state live target
    then failed (codes "restart_target_unavailable")
    else if is_some_and target.deadline_unix_ms (λ deadline. leb deadline now)
    then failed (codes "restart_timed_out")
    else moved (advanced state service now target ∷ rest)
        (if target.restarted then codes "waiting_health" else codes "restarting")

unfoldable pub step_targets : ClusterState → List Str → Str → ℕ → List RestartTarget → Step
step_targets state live service now [] = nothing_left
step_targets state live service now (target ∷ rest) =
    let later = step_targets state live service now rest in
    if target.completed then behind target later else step_target state live service now target rest

unfoldable pub after_step : ServiceOperationRecord → ℕ → Step → ServiceOperationRecord
after_step operation now nothing_left = operation
after_step operation now (failed e) = fail operation e now
after_step operation now (moved ts phase) = record operation {
  tasks = ts;
  view = record operation.view { phase = phase };
}

unfoldable pub is_completed : RestartTarget → Bool
is_completed target = target.completed

-- The count of the completed targets, and success when no target is left.
unfoldable pub finish : ServiceOperationRecord → ℕ → ServiceOperationRecord
finish operation now =
    let counted = record operation {
      view = record operation.view { completed_tasks = count is_completed operation.tasks };
    } in
    if all is_completed operation.tasks then succeed counted now else counted

unfoldable pub advance_restart :
    ClusterState → List Str → ServiceOperationRecord → ℕ → ServiceOperationRecord
advance_restart state live operation now =
    let running = record operation {
      view = record operation.view { status = ServiceOperationStatus.running };
    } in
    finish
      (after_step running now (step_targets state live operation.view.service now operation.tasks))
      now
