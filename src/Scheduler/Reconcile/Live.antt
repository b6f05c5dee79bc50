-- ===== src/Scheduler/Reconcile/Live.antt =====
-- scheduler.rs, `reconcile`: wanted tasks and live nodes.
use mathlib.Core.Option
use swarmlite.Base.{
  ℕ, zero, suc, ◌≡◌, refl, ap, ◌∙◌, Bool, true, Option, none, some, List, [], ◌∷◌, ◌||◌, not, arith,
  inl, inr, ◌==◌, all, is_some, all-mem, ||-right, &&-true, &&-true, Memᴰ, min, Option-cases,
  Bool-cases, Str, str_eq,
}
use swarmlite.Base.Map.{BTreeMap, get, insert, update, map_values, values, keys}
use swarmlite.Cluster.{
  is_running, is_draining, ServiceOperationRecord, TaskRecord, ServiceRecord, ClusterState,
}
use swarmlite.Jobs.{reconcile_jobs}
use swarmlite.Scheduler.Placement.{schedule_task}
use swarmlite.Scheduler.Placement.Sound.{schedule_task-IsPlaced}
use swarmlite.Scheduler.Rollout.{
  retired, stop_all_service_tasks, service_task_ids, retire_violating, make_room, select,
  runs_current, runs_old, create, fill, needed, can_create, add_task, reconcile_service,
}
use swarmlite.Scheduler.Rollout.Keeps.{retire_all-keeps, retire_violating-keeps, make_room-keeps}
use swarmlite.Scheduler.Ports.{contains}
use swarmlite.Scheduler.Reconcile.{
  is_restarting, is_wanted, stops_lost, stop_lost, is_being_restarted, reconcile_one, reconcile_all,
  reconcile,
}

-- A replica, not a job's task, that is to run or to drain has a live node.
abbrev pub is_on_live : List Str → TaskRecord → Bool
is_on_live live task = is_some task.job || not (is_wanted task) || contains live task.node_id

abbrev AllLive : List Str → BTreeMap TaskRecord → Type 0
AllLive live m = all (is_on_live live) (values m) ≡ true

retired-on_live :
    (live : List Str) (routed : Bool) (t : TaskRecord)
    → is_running t.desired ≡ true
    → is_on_live live t ≡ true
    → is_on_live live (retired routed t) ≡ true
unfolding retired is_wanted
retired-on_live live routed t k h =
    let here : (is_some t.job || contains live t.node_id) ≡ true = ground arith in
    elim (Bool-cases (contains live t.node_id)) [
      | inl e ↦ rw e (||-right _)
      | inr e ↦ elim (Bool-cases (is_some t.job)) [
        | inl j ↦ rw j refl
        | inr j ↦ ground (arith, here)
      ]
    ]

AllLive-update :
    (live : List Str) (m : BTreeMap TaskRecord) (id : Str) (routed : Bool) (t : TaskRecord)
    → get m id ≡ some t
    → is_running t.desired ≡ true
    → AllLive live m
    → AllLive live (update id (retired routed) m)
unfolding all values update get
AllLive-update live [] id routed t e k h = refl
AllLive-update live ((j, u) ∷ m) id routed t e k h =
    let both = &&-true (is_on_live live u) (all (is_on_live live) (values m)) h in
    elim (Bool-cases (str_eq j id)) [
      | inl same ↦
          let is_t : u ≡ t = Option.some-injective _ _ (rw same at e) in
          rw same (
            rw (retired-on_live live routed u (ap (λ v. is_running v.desired) is_t ∙ k) both.0)
              both.1)
      | inr other ↦
          rw other (rw both.0 (AllLive-update live m id routed t (rw other at e) k both.1))
    ]

AllLive-insert :
    (live : List Str) (m : BTreeMap TaskRecord) (id : Str) (t : TaskRecord)
    → is_on_live live t ≡ true
    → AllLive live m
    → AllLive live (insert id t m)
unfolding all values insert
AllLive-insert live [] id t k h = ground arith
AllLive-insert live ((j, u) ∷ m) id t k h = ground (arith, AllLive-insert live m id t k)

stop_lost-on_live :
    (operations : BTreeMap ServiceOperationRecord) (live : List Str) (t : TaskRecord)
    → is_on_live live (stop_lost operations live t) ≡ true
unfolding stop_lost stops_lost is_wanted is_restarting
stop_lost-on_live operations live t = ground arith

AllLive-stop_lost :
    (operations : BTreeMap ServiceOperationRecord) (live : List Str) (m : BTreeMap TaskRecord)
    → AllLive live (map_values (stop_lost operations live) m)
unfolding all values map_values
AllLive-stop_lost operations live [] = refl
AllLive-stop_lost operations live ((k, t) ∷ m) =
    ground (arith, stop_lost-on_live operations live t, AllLive-stop_lost operations live m)

placed-on_live :
    (new_v4 : ClusterState → Str) (state : ClusterState) (service : ServiceRecord) (live : List Str)
    {task : TaskRecord}
    → schedule_task new_v4 state service live ≡ some task
    → is_on_live live task ≡ true
placed-on_live new_v4 state service live {task} h =
    let p = schedule_task-IsPlaced new_v4 state service live h in
    let at : contains live task.node_id ≡ true = ap (contains live) p.on_node ∙ p.eligible.live in
    rw at (||-right (is_some task.job || not (is_wanted task)))

module _ (new_v4 : ClusterState → Str) (live : List Str) where
  AllLive-create :
      (n : ℕ) (state : ClusterState) (service : ServiceRecord)
      → AllLive live state.tasks
      → AllLive live (create new_v4 n state service live).0.tasks
  unfolding create
  AllLive-create zero state service h = h
  AllLive-create (suc n) state service h =
      elim (Option-cases (schedule_task new_v4 state service live)) [
        | inl e ↦ rw (e, create) h
        | inr (task, e) ↦
            rw (e, create)
              (AllLive-create n (add_task state task) service (
                AllLive-insert live state.tasks task.id task
                  (placed-on_live new_v4 state service live e) h))
      ]

  AllLive-reconcile_service :
      (state : ClusterState) (service : ServiceRecord)
      → AllLive live state.tasks
      → AllLive live (reconcile_service new_v4 state service live).0.tasks
  unfolding reconcile_service fill
  AllLive-reconcile_service state service h =
      let ids = service_task_ids state service in
      let kept = (retire_violating state service ids).0 in
      let current = select kept (runs_current service live) ids in
      let old = select kept (runs_old service live) ids in
      let freed = (make_room kept service current old).0 in
      AllLive-create (min (needed freed service live) (can_create freed service live)) freed service
        (make_room-keeps (AllLive live) (AllLive-update live) kept service current old
          (retire_violating-keeps (AllLive live) (AllLive-update live) state service ids h))

  AllLive-one :
      (state : ClusterState) (service : ServiceRecord)
      → AllLive live state.tasks
      → AllLive live (reconcile_one new_v4 state service live).0.tasks
  unfolding reconcile_one stop_all_service_tasks
  AllLive-one state service h =
      elim (Bool-cases (is_some service.spec.job || is_being_restarted state service)) [
        | inl k ↦ rw k h
        | inr k ↦ elim (Bool-cases (service.deleted || service.spec.replicas == 0)) [
          | inl e ↦
              rw (k, e)
                (retire_all-keeps (AllLive live) (AllLive-update live) state service
                  (service_task_ids state service) h)
          | inr e ↦ rw (k, e) (AllLive-reconcile_service state service h)
        ]
      ]

  AllLive-all :
      (ids : List Str) (state : ClusterState)
      → AllLive live state.tasks
      → AllLive live (reconcile_all new_v4 state live ids).0.tasks
  unfolding reconcile_all
  AllLive-all [] state h = h
  AllLive-all (id ∷ ids) state h = elim (Option-cases (get state.services id)) [
    | inl e ↦ rw (e, reconcile_all) (AllLive-all ids state h)
    | inr (service, e) ↦
        rw (e, reconcile_all)
          (AllLive-all ids (reconcile_one new_v4 state service live).0
            (AllLive-one state service h))
  ]

-- After a pass over any state at all, with any live nodes, every task without a job that is to run
-- or to drain is on a live node.
pub reconcile-on_live :
    (new_v4 : ClusterState → Str) (occurrence : Str → Str → ℕ → Option ℕ) (state : ClusterState)
    (live : List Str) (now : ℕ) (task : TaskRecord)
    → Memᴰ task (values (reconcile new_v4 occurrence state live now).0.tasks)
    → task.job ≡ none
    → (is_running task.desired || is_draining task.desired) ≡ true
    → contains live task.node_id ≡ true
unfolding reconcile is_wanted
reconcile-on_live new_v4 occurrence state live now task m no_job wanted =
    let ran = (reconcile_jobs new_v4 occurrence state live now).0 in
    let stopped = record ran {
      tasks = map_values (stop_lost ran.service_operations live) ran.tasks;
    } in
    let every =
      AllLive-all new_v4 live (keys stopped.services) stopped
        (AllLive-stop_lost ran.service_operations live ran.tasks) in
    let here : is_on_live live task ≡ true = all-mem (is_on_live live) _ every m in
    ground (arith, here, ap is_some no_job)
