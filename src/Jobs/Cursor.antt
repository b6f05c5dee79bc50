-- ===== src/Jobs/Cursor.antt =====
-- jobs.rs: the cursors of the services, and the tasks of an occurrence.
use swarmlite.Base.{
  ℕ, ◌+◌, ◌-◌, ◌*◌, ◌/◌, min, max, Bool, true, false, Option, none, some, List, [], ◌∷◌, ◌&&◌, ◌||◌,
  not, if◌then◌else◌, ltb, leb, ◌==◌, filter, is_some, is_some_and, is_none_or, unwrap_or, Str,
  str_eq,
}
use swarmlite.Base.Map.{get, insert, update, map_values, values}
use swarmlite.Cluster.{
  JobSpec, JobCursor, JobExecution, TaskRecord, ServiceRecord, ClusterState, DesiredTaskState,
  is_job_terminal,
}
use swarmlite.Scheduler.Placement.{schedule_task}

abbrev i64_max : ℕ
i64_max = 0x7fffffffffffffff

abbrev pub saturating_add : ℕ → ℕ → ℕ
saturating_add a b = min (a + b) i64_max

abbrev option_ℕ_eq : Option ℕ → Option ℕ → Bool
option_ℕ_eq none none = true
option_ℕ_eq (some a) (some b) = a == b
option_ℕ_eq _ _ = false

-- The derived equality of cursors, with an absent one too.
unfoldable pub cursor_eq : Option JobCursor → JobCursor → Bool
cursor_eq none d = false
cursor_eq (some c) d =
    option_ℕ_eq c.last_scheduled_at_unix_ms d.last_scheduled_at_unix_ms
    && str_eq c.schedule d.schedule
    && str_eq c.time_zone d.time_zone
    && c.next_at_unix_ms == d.next_at_unix_ms

abbrev last_scheduled : Option JobCursor → Option ℕ
last_scheduled none = none
last_scheduled (some c) = c.last_scheduled_at_unix_ms

abbrev pub with_cursor : JobCursor → ServiceRecord → ServiceRecord
with_cursor c service = record service { job_cursor = some c }

abbrev pub set_cursor : ClusterState → ServiceRecord → JobCursor → ClusterState
set_cursor state service c = record state {
  services = update service.id (with_cursor c) state.services;
}

unfoldable pub policy_changed : Option JobCursor → Str → Str → Bool
policy_changed cursor schedule time_zone =
    is_none_or cursor (λ c. not (str_eq c.schedule schedule) || not (str_eq c.time_zone time_zone))

-- A cursor never moves back, also when the clock did.
unfoldable pub move_base : Option JobCursor → ℕ → ℕ
move_base cursor now = max (unwrap_or (last_scheduled cursor) now) now

unfoldable pub later_of : Option JobCursor → ℕ → ℕ
later_of none next = next
later_of (some c) next = max next c.next_at_unix_ms

unfoldable pub moved_to : Option JobCursor → Str → Str → ℕ → JobCursor
moved_to cursor schedule time_zone next = record {
  last_scheduled_at_unix_ms = last_scheduled cursor;
  schedule = schedule;
  time_zone = time_zone;
  next_at_unix_ms =
      (if policy_changed cursor schedule time_zone then next else later_of cursor next);
}

-- The grace of one task of the previous occurrence.
unfoldable pub grace_of : TaskRecord → ℕ
grace_of old = elim old.job [
  | none ↦ 0
  | some job ↦
      if is_job_terminal old.observed
      then 0
      else min (job.spec.stop_grace_period_seconds * 1000) 0xffffffffffffffff + 5000
]

abbrev is_job_task : Str → TaskRecord → Bool
is_job_task id task = str_eq task.service_id id && is_some task.job

unfoldable pub max_grace : List TaskRecord → ℕ
max_grace [] = 0
max_grace (t ∷ ts) = max (grace_of t) (max_grace ts)

unfoldable pub stop_previous : Str → TaskRecord → TaskRecord
stop_previous id task =
    if is_job_task id task then record task { desired = DesiredTaskState.stopped } else task

-- The job of a task that runs the occurrence.
abbrev execution : ServiceRecord → (scheduled not_before next : ℕ) → JobExecution
execution service scheduled not_before next = record {
  runtime = none;
  job_id = service.id;
  scheduled_at_unix_ms = scheduled;
  not_before_unix_ms = not_before;
  start_deadline_unix_ms = next;
  spec = service.spec;
}

abbrev single : ServiceRecord → ServiceRecord
single service = record service { spec = record service.spec { replicas = 1 } }

-- `JobSpec::next_after`.
unfoldable pub next_after : (Str → Str → ℕ → Option ℕ) → JobSpec → ℕ → Option ℕ
next_after occurrence job t = elim job.schedule [
  | none ↦ none
  | some schedule ↦ occurrence schedule job.time_zone t
]

module _ (new_v4 : ClusterState → Str) where
  -- The previous occurrence stops, and a task for the new one is placed on a node that runs jobs.
  unfoldable pub launch :
      ClusterState → List Str → ServiceRecord → (now scheduled next : ℕ) → ClusterState
  launch state live service now scheduled next =
      let grace_ms = max_grace (filter (is_job_task service.id) (values state.tasks)) in
      let stopped = record state { tasks = map_values (stop_previous service.id) state.tasks } in
      let eligible = filter (λ id. is_some_and (get state.nodes id) (λ n. n.supports_jobs)) live in
      let not_before = saturating_add now (min (min grace_ms 30000) ((next - now) / 2)) in
      elim (schedule_task new_v4 stopped (single service) eligible) [
        | none ↦ stopped
        | some task ↦ record stopped {
          tasks =
              insert task.id
                (record task { job = some (execution service scheduled not_before next) })
                stopped.tasks;
        }
      ]

  module _ (occurrence : Str → Str → ℕ → Option ℕ) where
    -- A changed policy, or a suspended job: only the cursor moves.
    unfoldable pub move_cursor :
        ClusterState → ServiceRecord → JobSpec → Str → ℕ → ClusterState × Bool
    move_cursor state service job schedule now =
        elim (next_after occurrence job (move_base service.job_cursor now)) [
          | none ↦ (state, false)
          | some next ↦
              let new_cursor = moved_to service.job_cursor schedule job.time_zone next in
              if cursor_eq service.job_cursor new_cursor
              then (state, false)
              else (set_cursor state service new_cursor, true)
        ]

    -- An occurrence that is due is consumed; one that is a minute late or more is not run.
    unfoldable pub consume :
        ClusterState → List Str → ServiceRecord → JobSpec → JobCursor → ℕ → ClusterState × Bool
    consume state live service job cursor now =
        if ltb now cursor.next_at_unix_ms
        then (state, false)
        else elim (next_after occurrence job now) [
          | none ↦ (state, false)
          | some next ↦
              let scheduled = cursor.next_at_unix_ms in
              let moved = set_cursor state service (record cursor {
                next_at_unix_ms = next;
                last_scheduled_at_unix_ms = some scheduled;
              }) in
              if leb 60000 (now - scheduled)
              then (moved, true)
              else (launch moved live service now scheduled next, true)
        ]

    -- The body of the loop over the services with a job.
    unfoldable pub run_schedule :
        ClusterState → List Str → ℕ → ServiceRecord → JobSpec → ClusterState × Bool
    run_schedule state live now service job = elim job.schedule [
      | none ↦ (state, false)
      | some schedule ↦
          if policy_changed service.job_cursor schedule job.time_zone || job.suspend
          then move_cursor state service job schedule now
          else elim service.job_cursor [
            | none ↦ (state, false)
            | some cursor ↦ consume state live service job cursor now
          ]
    ]
