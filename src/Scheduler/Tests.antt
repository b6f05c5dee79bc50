-- ===== src/Scheduler/Tests.antt =====
-- Runs of the scheduler on the sample cluster, and the theorems at those inputs.
use swarmlite.Base.{
  ℕ, Option, Str, ◌+◌, ◌≤◌, min, max, ◌≡◌, ◌⊎◌, refl, none, some, [], ◌∷◌, ◌++◌, false, true, arith,
  count, filter, any, all, find, codes, str_eq, str_lt, Memᴰ, cases_cons, is_some_and, not, inl,
  inr,
}
use swarmlite.Base.Map.{get, values, insert, update, map_values, keys}
use swarmlite.Base.Scan.{split_once, trim, is_whitespace}
use swarmlite.Base.Sort.{sort_by}
use swarmlite.Cluster.{
  ClusterState, DesiredTaskState, ObservedTaskState, TaskRecord, set_insert, restarting_task,
}
use swarmlite.Scheduler.Constraints.{
  matches_constraints, matches_constraint, constraint_actual, option_str_eq,
  node_has_replica_capacity,
}
use swarmlite.Scheduler.Constraints.Labels.{IsPlain, label_prefix, matches_constraint-label}
use swarmlite.Scheduler.Drain.{finish_drains}
use swarmlite.Scheduler.Drain.Settled.{IsFinished, finish_drains-IsFinished}
use swarmlite.Jobs.{
  reconcile_jobs, run_schedules, check_task, must_stop, is_out_of_sight, finish_old, finished_of,
  first_ids, remove_tasks,
}
use swarmlite.Scheduler.Reconcile.{
  reconcile, reconcile_all, reconcile_one, is_being_restarted, stop_lost, stops_lost, is_wanted,
  is_restarting,
}
use swarmlite.Scheduler.Reconcile.Live.{reconcile-on_live}
use swarmlite.Scheduler.Ports.{
  contains, explicit_ports_available, is_service_http_routed, contains_ℕ, node_bindings,
}
use swarmlite.Scheduler.Ports.Used.{explicit_ports_available_lem, no_clash}
use swarmlite.Scheduler.Placement.{
  schedule_task, service_config_digests, used_slots, pinned_operation, node_key, key_lt,
}
use swarmlite.Scheduler.Placement.Sound.{IsEligible, IsPlaced, schedule_task-IsPlaced}
use swarmlite.Scheduler.Placement.Total.{schedule_task-total}
use swarmlite.Scheduler.Rollout.{
  retired, retire_task, retire_surplus, service_task_ids, retire_violating, violates, runs_current,
  runs_old, select, is_ready, healthy_count, retire_first, stop_first, make_room, occupying,
  desired_current, desired_old, max_total, can_create, needed, create, fill, add_task,
  reconcile_service,
}
use swarmlite.Scheduler.Rollout.Listed.{IsKeyed}
use swarmlite.Scheduler.Rollout.Bounds.{reconcile_service-occupying, reconcile_service-le_replicas}
use swarmlite.Scheduler.Rollout.Availability.{serves_current, reconcile_service_availability}
use swarmlite.Scheduler.Samples.{
  service, node, task, binding, live_nodes, state, updating, draw, draw-Fresh,
}

placement : Unit {0}
unfolding schedule_task matches_constraints matches_constraint constraint_actual option_str_eq
    split_once trim node_has_replica_capacity explicit_ports_available pinned_operation sort_by
    filter any all find count get insert values str_eq str_lt set_insert key_lt node_key
    service_config_digests
placement = tt

rollout : Unit {0}
unfolding placement reconcile_service retire_violating violates runs_current runs_old select
    is_ready healthy_count retire_first stop_first make_room max_total can_create needed create fill
    retire_task retire_surplus service_task_ids retired is_service_http_routed update
rollout = tt

-- The replacement goes to the empty node `b`.
abbrev replacement : TaskRecord
replacement = task (draw updating) (codes "b") 2 ObservedTaskState.pending (binding ∷ [])

schedule_task-updating : schedule_task draw updating (service 1 1) live_nodes ≡ some replacement
unfolding placement
schedule_task-updating = refl

-- The rolling update starts the replacement beside the old task.
reconcile_service-updating :
    reconcile_service draw updating (service 1 1) live_nodes ≡ (add_task updating replacement, true)
unfolding rollout
reconcile_service-updating = refl

-- A node that lacks the label `zone` of the constraint takes no task.
labels_count :
    matches_constraints (record (node (codes "c")) { labels = [] }) (service 1 1).spec.constraints
    ≡ false
unfolding placement
labels_count = refl

zone-IsPlain : IsPlain (codes "zone")
unfolding all is_whitespace
zone-IsPlain = record { bang = refl; equals = refl; space = refl }

matches_constraint-label_example :
    (matches_constraint
        (node (codes "a"))
        ((label_prefix ++ codes "zone") ++ (codes "==" ++ codes "zone"))
      ≡ is_some_and (get (node (codes "a")).labels (codes "zone")) (λ v. str_eq v (codes "zone")))
    × (matches_constraint
          (node (codes "a"))
          ((label_prefix ++ codes "zone") ++ (codes "!=" ++ codes "zone"))
        ≡ not (
            is_some_and
              (get (node (codes "a")).labels (codes "zone"))
              (λ v. str_eq v (codes "zone"))))
matches_constraint-label_example =
    matches_constraint-label (node (codes "a")) (codes "zone") (codes "zone") zone-IsPlain
      zone-IsPlain

explicit_ports_available_example :
    explicit_ports_available updating (node (codes "a")) (service 1 1).spec
    ≡ all (no_clash (node_bindings updating (codes "a"))) (service 1 1).spec.ports
explicit_ports_available_example =
    explicit_ports_available_lem updating (node (codes "a")) (service 1 1).spec

schedule_task-IsPlaced_example :
    IsPlaced updating (service 1 1) live_nodes (draw updating) replacement
schedule_task-IsPlaced_example =
    schedule_task-IsPlaced draw updating (service 1 1) live_nodes schedule_task-updating

b-IsEligible : IsEligible updating (service 1 1) live_nodes (node (codes "b"))
unfolding placement node_bindings
b-IsEligible = record {
  listed = Memᴰ.tail (Memᴰ.head refl);
  live = refl;
  constrained = refl;
  room = λ limit e n. inl (ground arith);
  ports_free = refl;
}

free_slot : contains_ℕ (used_slots updating (service 1 1)) 0 ≡ false
unfolding placement used_slots
free_slot = refl

unpinned : pinned_operation updating (service 1 1) ≡ none
unfolding placement
unpinned = refl

schedule_task-total_example :
    (t : TaskRecord) × (schedule_task draw updating (service 1 1) live_nodes ≡ some t)
schedule_task-total_example =
    schedule_task-total draw updating (service 1 1) live_nodes (node (codes "b")) 0 unpinned
      b-IsEligible (omega arith) free_slot

reconcile_service-occupying_example :
    count
      (occupying (service 1 1) live_nodes)
      (values (reconcile_service draw updating (service 1 1) live_nodes).0.tasks)
    ≤ max (count (occupying (service 1 1) live_nodes) (values updating.tasks)) 2
reconcile_service-occupying_example =
    reconcile_service-occupying draw updating (service 1 1) live_nodes

keyed : IsKeyed updating.tasks
unfolding get
keyed = (refl, refl, tt)

reconcile_service-le_replicas_example :
    count
      (desired_current (service 1 1) live_nodes)
      (values (reconcile_service draw updating (service 1 1) live_nodes).0.tasks)
    ≤ 1
reconcile_service-le_replicas_example =
    reconcile_service-le_replicas draw updating (service 1 1) live_nodes keyed

fine : (t : TaskRecord) → Memᴰ t (values updating.tasks) → violates updating (service 1 1) t ≡ false
unfolding values violates
fine t m = elim (cases_cons m) [ inl e ↦ rw e refl | inr n ↦ elim n [ ] ]

fits : count (desired_current (service 1 1) live_nodes) (values updating.tasks) ≤ 1
unfolding placement runs_current
fits = omega arith

reconcile_service_availability_example :
    min 1 (
      count (serves_current (service 1 1) live_nodes) (values updating.tasks)
      + count (desired_old (service 1 1) live_nodes) (values updating.tasks))
    ≤ count
        (serves_current (service 1 1) live_nodes)
        (values (reconcile_service draw updating (service 1 1) live_nodes).0.tasks)
      + count
          (desired_old (service 1 1) live_nodes)
          (values (reconcile_service draw updating (service 1 1) live_nodes).0.tasks)
reconcile_service_availability_example =
    reconcile_service_availability draw updating (service 1 1) live_nodes draw-Fresh keyed fine fits
      (omega arith)

-- A drain that is over at time 7.
abbrev draining : ClusterState
draining = state (
    (
      codes "t1",
      record (task (codes "t1") (codes "a") 1 ObservedTaskState.healthy []) {
        desired = DesiredTaskState.draining;
        drain_until_unix_ms = some 7;
      },
    )
    ∷ [])

abbrev draining_task : TaskRecord
draining_task = record (task (codes "t1") (codes "a") 1 ObservedTaskState.healthy []) {
  desired = DesiredTaskState.draining;
  drain_until_unix_ms = some 7;
}

drains : get draining.tasks (codes "t1") ≡ some draining_task
unfolding get str_eq
drains = refl

finish_drains-IsFinished_example :
    let done = finish_drains draining 7 in
    ((next : TaskRecord) × (get done.0.tasks (codes "t1") ≡ some next)
      × IsFinished 7 done.1 draining_task next)
    × (keys done.0.tasks ≡ keys draining.tasks)
    × (done.0 ≡ record draining { tasks = done.0.tasks })
    × ((done.1 ≡ true) ⊎ (done.0 ≡ draining))
    × (finish_drains done.0 7 ≡ (done.0, false))
finish_drains-IsFinished_example =
    finish_drains-IsFinished draining 7 (codes "t1") draining_task drains

-- Node `a` is dead, and only node `b` is live: the replica moves to `b`.
abbrev abandoned : ClusterState
abandoned = record updating { services = (codes "demo.web", service 1 1) ∷ [] }

abbrev never : Str → Str → ℕ → Option ℕ
never schedule zone t = none

abbrev moved : TaskRecord
moved = record replacement { id = draw abandoned }

pass : Unit {0}
unfolding rollout reconcile reconcile_all reconcile_one is_being_restarted stop_lost stops_lost
    is_wanted is_restarting restarting_task reconcile_jobs run_schedules check_task must_stop
    is_out_of_sight finish_old finished_of first_ids remove_tasks map_values keys
pass = tt

moved-mem : Memᴰ moved (values (reconcile draw never abandoned (codes "b" ∷ []) 0).0.tasks)
unfolding pass
moved-mem = Memᴰ.tail (Memᴰ.head refl)

reconcile-on_live_example : contains (codes "b" ∷ []) (codes "b") ≡ true
reconcile-on_live_example =
    reconcile-on_live draw never abandoned (codes "b" ∷ []) 0 moved moved-mem refl refl
