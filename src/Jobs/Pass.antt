-- ===== src/Jobs/Pass.antt =====
-- jobs.rs: `skip_missed` and `reconcile`.
use mathlib.Core.Option
use swarmlite.Base.{
  ℕ, zero, suc, ◌-◌, Bool, true, false, Option, none, some, List, [], ◌∷◌, ◌&&◌, ◌||◌, not,
  if◌then◌else◌, ltb, leb, ◌==◌, any, length, is_some, is_some_and, is_none_or, is_none, Str,
  str_eq, str_lt,
}
use swarmlite.Base.Map.{BTreeMap, get, remove, map_values, values, keys}
use swarmlite.Base.Sort.{sort_by}
use swarmlite.Cluster.{
  JobCursor, TaskRecord, ServiceRecord, ClusterState, DesiredTaskState, ObservedTaskState,
  is_job_terminal, is_stopped, is_unknown, is_pending,
}
use swarmlite.Scheduler.Ports.{contains}
use swarmlite.Jobs.Cursor.{with_cursor, next_after, run_schedule}

-- The job is gone from the cluster.
abbrev is_deleted : BTreeMap ServiceRecord → TaskRecord → Bool
is_deleted services task =
    is_none_or (get services task.service_id) (λ s. s.deleted || is_none s.spec.job)

-- The first loop stops a task of a job that is gone, or that was not started in time.
unfoldable pub must_stop : BTreeMap ServiceRecord → ℕ → TaskRecord → Bool
must_stop services now task = is_some_and task.job (λ job.
    (is_deleted services task
      || leb job.start_deadline_unix_ms now
        && (is_pending task.observed || is_unknown task.observed))
    && not (is_stopped task.desired))

-- A task of a dead node that has not ended is of unknown state.
unfoldable pub is_out_of_sight : List Str → TaskRecord → Bool
is_out_of_sight live task =
    is_some task.job
    && not (contains live task.node_id)
    && not (is_job_terminal task.observed)
    && not (is_unknown task.observed)

unfoldable pub check_task : BTreeMap ServiceRecord → List Str → ℕ → TaskRecord → TaskRecord
check_task services live now task =
    let stopped =
      if must_stop services now task
      then record task { desired = DesiredTaskState.stopped }
      else task in
    if is_out_of_sight live task
    then record stopped { observed = ObservedTaskState.unknown }
    else stopped

-- The finished executions of a service, the oldest first.
abbrev execution_lt : ℕ × Str → ℕ × Str → Bool
execution_lt a b = if ltb a.0 b.0 then true else a.0 == b.0 && str_lt a.1 b.1

unfoldable pub finished_of : Str → List TaskRecord → List (ℕ × Str)
finished_of id [] = []
finished_of id (task ∷ ts) =
    let rest = finished_of id ts in
    elim task.job [
      | none ↦ rest
      | some job ↦
          if str_eq task.service_id id && is_job_terminal task.observed
          then (job.scheduled_at_unix_ms, task.id) ∷ rest
          else rest
    ]

unfoldable pub first_ids : ℕ → List (ℕ × Str) → List Str
first_ids zero xs = []
first_ids (suc n) [] = []
first_ids (suc n) (x ∷ xs) = x.1 ∷ first_ids n xs

unfoldable pub remove_tasks : ClusterState → List Str → ClusterState
remove_tasks state [] = state
remove_tasks state (id ∷ ids) = remove_tasks (record state { tasks = remove id state.tasks }) ids

abbrev is_cons : List Str → Bool
is_cons [] = false
is_cons (x ∷ xs) = true

-- All but the last twenty finished executions are forgotten.
unfoldable pub finish_old : ClusterState → List Str → ClusterState × Bool
finish_old state [] = (state, false)
finish_old state (id ∷ ids) =
    let finished = sort_by execution_lt (finished_of id (values state.tasks)) in
    let old = first_ids (length finished - 20) finished in
    let (rest, later) = finish_old (remove_tasks state old) ids in (rest, is_cons old || later)

-- The loop over the services with a job, each as it was at the start of the loop.
module _ (new_v4 : ClusterState → Str) (occurrence : Str → Str → ℕ → Option ℕ) where
  unfoldable pub run_schedules :
      ClusterState → List Str → ℕ → List ServiceRecord → ClusterState × Bool
  run_schedules state live now [] = (state, false)
  run_schedules state live now (service ∷ services) = elim service.spec.job [
    | none ↦ run_schedules state live now services
    | some job ↦
        if service.deleted
        then run_schedules state live now services
        else let (next, changed) = run_schedule new_v4 occurrence state live now service job in
          let (rest, later) = run_schedules next live now services in (rest, changed || later)
  ]

  -- `jobs::reconcile`.
  unfoldable pub reconcile_jobs : ClusterState → List Str → ℕ → ClusterState × Bool
  reconcile_jobs state live now =
      let checked = record state {
        tasks = map_values (check_task state.services live now) state.tasks;
      } in
      let (scheduled, moved) = run_schedules checked live now (values state.services) in
      let (finished, removed) = finish_old scheduled (keys scheduled.services) in
      (
        finished,
        any (λ task. must_stop state.services now task || is_out_of_sight live task)
              (values state.tasks)
            || moved
            || removed,
      )

-- `skip_missed` takes only the `Ok` values of `next_after`.
module _ (occurrence : Str → Str → ℕ → Option ℕ) where
  unfoldable pub missed : ℕ → ServiceRecord → Option JobCursor
  missed now service = elim service.spec.job [
    | none ↦ none
    | some job ↦ elim service.job_cursor [
      | none ↦ none
      | some cursor ↦
          if leb cursor.next_at_unix_ms now
          then Option.map (λ next. record cursor { next_at_unix_ms = next })
              (next_after occurrence job now)
          else none
    ]
  ]

  unfoldable pub skip_service : ℕ → ServiceRecord → ServiceRecord
  skip_service now service = elim (missed now service) [
    | none ↦ service
    | some cursor ↦ with_cursor cursor service
  ]

  unfoldable pub skip_missed : ClusterState → ℕ → ClusterState × Bool
  skip_missed state now = (
    record state { services = map_values (skip_service now) state.services },
    any (λ service. is_some (missed now service)) (values state.services),
  )
