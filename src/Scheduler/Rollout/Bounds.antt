-- ===== src/Scheduler/Rollout/Bounds.antt =====
-- scheduler.rs, `reconcile_service`: how many tasks a pass may leave.
use native.Mathlib.Nat.{le_refl}
use swarmlite.Base.{
  ◌+◌, ◌-◌, ◌≤◌, min, max, ◌≡◌, refl, Bool, List, arith, length, count, Str, str_eq, map, filter,
  [], ◌∷◌, ◌∙◌,
}
use swarmlite.Base.Map.{BTreeMap, update, values}
use swarmlite.Cluster.{TaskRecord, ServiceRecord, ClusterState}
use swarmlite.Scheduler.Rollout.Retire.{retired, retire_surplus, service_task_ids}
use swarmlite.Scheduler.Rollout.Phases.{
  retire_violating, runs_current, runs_old, select, healthy_count, make_room, occupying,
  desired_current, max_total, can_create, needed, fill, reconcile_service,
}
use swarmlite.Scheduler.Rollout.Listed.{IsKeyed, ReadsRunning, Lists, retire_surplus-Lists}
use swarmlite.Scheduler.Rollout.Select.{select-Lists}
use swarmlite.Scheduler.Rollout.Keeps.{
  always, count-keeps, count-shrinks, retire_violating-keeps, retire_surplus-keeps, make_room-keeps,
  stop_first-keeps, count-create, update-IsKeyed,
}

module _ (new_v4 : ClusterState → Str) (state : ClusterState) (service : ServiceRecord)
    (live_nodes : List Str) where
  max_total-le : max_total state service live_nodes ≤ service.spec.replicas + service.spec.max_surge
  unfolding max_total
  max_total-le = ground arith

  fill-occupying :
      count (occupying service live_nodes) (values (fill new_v4 state service live_nodes).0.tasks)
      ≤ max
          (count (occupying service live_nodes) (values state.tasks))
          (service.spec.replicas + service.spec.max_surge)
  unfolding fill can_create
  fill-occupying = omega (
    arith,
    max_total-le,
    count-create new_v4 service live_nodes (occupying service live_nodes)
        (min (needed state service live_nodes) (can_create state service live_nodes)) state,
  )

  fill-desired :
      count (desired_current service live_nodes) (values state.tasks) ≤ service.spec.replicas
      → count
          (desired_current service live_nodes)
          (values (fill new_v4 state service live_nodes).0.tasks)
        ≤ service.spec.replicas
  unfolding fill needed
  fill-desired h = omega (
    arith,
    count-create new_v4 service live_nodes (desired_current service live_nodes)
        (min (needed state service live_nodes) (can_create state service live_nodes)) state,
  )

occupying-retired :
    (service : ServiceRecord) (live_nodes : List Str) (routed : Bool) (t : TaskRecord)
    → occupying service live_nodes (retired routed t) ≡ occupying service live_nodes t
unfolding retired
occupying-retired service live_nodes routed t = refl

desired_current-ReadsRunning :
    (service : ServiceRecord) (live_nodes : List Str)
    → ReadsRunning (desired_current service live_nodes)
unfolding retired runs_current
desired_current-ReadsRunning service live_nodes = record {
  gone = λ routed t. ground arith;
  running = λ t h. ground arith;
}

-- A pass over a service never raises the number of its tasks on live nodes (other than failed or
-- lost ones) above the larger of the number there was and `replicas + max_surge`.
pub reconcile_service-occupying :
    (new_v4 : ClusterState → Str) (state : ClusterState) (service : ServiceRecord)
    (live_nodes : List Str)
    → count
        (occupying service live_nodes)
        (values (reconcile_service new_v4 state service live_nodes).0.tasks)
      ≤ max
          (count (occupying service live_nodes) (values state.tasks))
          (service.spec.replicas + service.spec.max_surge)
unfolding reconcile_service
reconcile_service-occupying new_v4 state service live_nodes =
    let n = count (occupying service live_nodes) (values state.tasks) in
    let I = λ (m : BTreeMap TaskRecord). count (occupying service live_nodes) (values m) ≤ n in
    let keep =
      always {I = I}
        (count-keeps (occupying service live_nodes) n (occupying-retired service live_nodes)) in
    let ids = service_task_ids state service in
    let s1 = (retire_violating state service ids).0 in
    let current = select s1 (runs_current service live_nodes) ids in
    let old = select s1 (runs_old service live_nodes) ids in
    let s2 = (make_room s1 service current old).0 in
    let h =
      make_room-keeps I keep s1 service current old
        (retire_violating-keeps I keep state service ids (le_refl n)) in
    omega (arith, h, fill-occupying new_v4 s2 service live_nodes)

-- The ids of the service's tasks in a map of tasks.
abbrev task_ids : ServiceRecord → BTreeMap TaskRecord → List Str
task_ids service m = map (λ t. t.id) (filter (λ t. str_eq t.service_id service.id) (values m))

task_ids-update :
    (service : ServiceRecord) (m : BTreeMap TaskRecord) (id : Str) (routed : Bool)
    → task_ids service (update id (retired routed) m) ≡ task_ids service m
unfolding values filter update retired
task_ids-update service [] id routed = refl
task_ids-update service ((k, t) ∷ m) id routed = ground (arith, task_ids-update service m id routed)

-- They are the same after some tasks were retired.
pub service_task_ids-retire_violating :
    (state : ClusterState) (service : ServiceRecord) (ids : List Str)
    → service_task_ids (retire_violating state service ids).0 service
      ≡ service_task_ids state service
unfolding service_task_ids
service_task_ids-retire_violating state service ids =
    retire_violating-keeps (λ m. task_ids service m ≡ task_ids service state.tasks)
      (λ m id routed t e k h. task_ids-update service m id routed ∙ h) state service ids refl

make_room-desired :
    (state : ClusterState) (service : ServiceRecord) (live_nodes : List Str)
    (current old : List Str)
    → Lists state.tasks (desired_current service live_nodes) current
    → count
        (desired_current service live_nodes)
        (values (make_room state service current old).0.tasks)
      ≤ service.spec.replicas
unfolding make_room
make_room-desired state service live_nodes current old l =
    let p = desired_current service live_nodes in
    let n = service.spec.replicas in
    let r = desired_current-ReadsRunning service live_nodes in
    let I = λ (m : BTreeMap TaskRecord). count p (values m) ≤ n in
    let keep = always {I = I} (count-shrinks p n r.gone) in
    let (lists, short) = retire_surplus-Lists n state service p current r l in
    let scaled = retire_surplus n state service current in
    let kept = n - healthy_count scaled.state scaled.left in
    let trimmed = retire_surplus kept scaled.state service old in
    stop_first-keeps I keep trimmed.state service (length scaled.left) trimmed.left (
      retire_surplus-keeps I keep kept scaled.state service old
        (omega (arith, lists.complete, short)))

-- A pass leaves at most `replicas` tasks of the active revision running on live nodes, however
-- many there were, where every task of the state stands under its own id.
pub reconcile_service-le_replicas :
    (new_v4 : ClusterState → Str) (state : ClusterState) (service : ServiceRecord)
    (live_nodes : List Str)
    → IsKeyed state.tasks
    → count
        (desired_current service live_nodes)
        (values (reconcile_service new_v4 state service live_nodes).0.tasks)
      ≤ service.spec.replicas
unfolding reconcile_service
reconcile_service-le_replicas new_v4 state service live_nodes h =
    let ids = service_task_ids state service in
    let s1 = (retire_violating state service ids).0 in
    let keyed =
      retire_violating-keeps IsKeyed (always {I = IsKeyed} update-IsKeyed) state service ids h in
    let current = select s1 (runs_current service live_nodes) ids in
    let old = select s1 (runs_old service live_nodes) ids in
    let s2 = (make_room s1 service current old).0 in
    let l =
      rw (service_task_ids-retire_violating state service ids) at
        (select-Lists s1 service (runs_current service live_nodes) keyed) in
    fill-desired new_v4 s2 service live_nodes
      (make_room-desired s1 service live_nodes current old l)
