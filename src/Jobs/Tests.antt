-- ===== src/Jobs/Tests.antt =====
-- A job that is due, on a small cluster.
use swarmlite.Base.{
  ℕ, ◌+◌, ◌≡◌, refl, Option, none, some, [], ◌∷◌, false, arith, Str, codes, str_eq,
}
use swarmlite.Base.Map.{get}
use swarmlite.Cluster.{JobSpec, JobCursor, ServiceRecord, ClusterState}
use swarmlite.Scheduler.Samples.{service, state, draw}
use swarmlite.Jobs.{run_schedule}
use swarmlite.Jobs.Once.{IsAfter, run_schedule_once}

-- Every schedule runs once a minute after the time.
abbrev each_minute : Str → Str → ℕ → Option ℕ
each_minute schedule zone t = some (t + 60000)

each_minute-IsAfter : IsAfter each_minute
each_minute-IsAfter schedule zone t n h = ground arith

abbrev backup_job : JobSpec
backup_job = record {
  schedule = some (codes "* * * * *");
  time_zone = codes "UTC";
  suspend = false;
  timeout_seconds = none;
}

abbrev due_cursor : JobCursor
due_cursor = record {
  last_scheduled_at_unix_ms = none;
  schedule = codes "* * * * *";
  time_zone = codes "UTC";
  next_at_unix_ms = 60000;
}

abbrev backup : ServiceRecord
backup = record (service 1 0) { job_cursor = some due_cursor }

abbrev with_backup : ClusterState
with_backup = record (state []) { services = (codes "demo.web", backup) ∷ [] }

run_schedule_once_example :
    let out = run_schedule draw each_minute with_backup (codes "a" ∷ []) 60500 backup backup_job in
    (later : ServiceRecord) × (get out.0.services (codes "demo.web") ≡ some later)
    × (run_schedule draw each_minute out.0 (codes "a" ∷ []) 60500 later backup_job ≡ (out.0, false))
unfolding get str_eq
run_schedule_once_example =
    run_schedule_once draw each_minute each_minute-IsAfter (codes "a" ∷ []) 60500 backup_job
      with_backup backup refl
