-- ===== src/Scheduler/Rollout/Keeps.antt =====
-- Invariants of the retiring phases: what one retirement keeps, every phase before `fill` keeps.
use mathlib.Core.List.{reverse}
use swarmlite.Base.{
  some, true, ℕ, zero, suc, ◌+◌, ◌-◌, ◌≤◌, ◌≡◌, Bool, false, List, [], ◌∷◌, arith, ltb, length,
  count, Bool-cases, Option-cases, inl, inr, is_some_and, Str, str_eq, ◌&&◌, ◌==◌,
}
use swarmlite.Base.Map.{BTreeMap, get, update, values, get-update}
use swarmlite.Base.Tally.{count-insert-le, count-update_eq, count-update_le}
use swarmlite.Cluster.{is_running, TaskRecord, ServiceRecord, ClusterState}
use swarmlite.Scheduler.Ports.{is_service_http_routed}
use swarmlite.Scheduler.Placement.{schedule_task}
use swarmlite.Scheduler.Rollout.Retire.{retired, retire_task, retire_all, retire_surplus}
use swarmlite.Scheduler.Rollout.Phases.{
  violates, retire_violating, retire_first, stop_first, make_room, healthy_count, add_task, create,
}
use swarmlite.Scheduler.Rollout.Listed.{IsKeyed}

-- Retiring a task that runs keeps a property of the tasks.
abbrev pub IsKept : (BTreeMap TaskRecord → Type 0) → Type 0
IsKept I =
    (m : BTreeMap TaskRecord) (id : Str) (routed : Bool) (t : TaskRecord)
    → get m id ≡ some t
    → is_running t.desired ≡ true
    → I m
    → I (update id (retired routed) m)

pub always :
    {I : BTreeMap TaskRecord → Type 0}
    → ((m : BTreeMap TaskRecord) (id : Str) (routed : Bool)
        → I m
        → I (update id (retired routed) m))
    → IsKept I
always f m id routed t e k h = f m id routed h

module _ (I : BTreeMap TaskRecord → Type 0) (keep : IsKept I) where
  pub retire_task-keeps :
      (state : ClusterState) (id : Str) (service : ServiceRecord)
      → I state.tasks
      → I (retire_task state id service).0.tasks
  unfolding retire_task
  retire_task-keeps state id service h = elim (Option-cases (get state.tasks id)) [
    | inl e ↦ rw (e, retire_task) h
    | inr (t, e) ↦ elim (Bool-cases (is_running t.desired)) [
      | inl k ↦
          rw (e, retire_task)
            (rw k (keep state.tasks id (is_service_http_routed state service) t e k h))
      | inr k ↦ rw (e, retire_task) (rw k h)
    ]
  ]

  pub retire_all-keeps :
      (state : ClusterState) (service : ServiceRecord) (ids : List Str)
      → I state.tasks
      → I (retire_all state service ids).0.tasks
  unfolding retire_all
  retire_all-keeps state service [] h = h
  retire_all-keeps state service (id ∷ ids) h =
      retire_all-keeps (retire_task state id service).0 service ids
        (retire_task-keeps state id service h)

  pub retire_violating-keeps :
      (state : ClusterState) (service : ServiceRecord) (ids : List Str)
      → I state.tasks
      → I (retire_violating state service ids).0.tasks
  unfolding retire_violating
  retire_violating-keeps state service [] h = h
  retire_violating-keeps state service (id ∷ ids) h =
      elim (Bool-cases (is_some_and (get state.tasks id) (violates state service))) [
        | inl k ↦ rw k (
            retire_violating-keeps (retire_task state id service).0 service ids
              (retire_task-keeps state id service h))
        | inr k ↦ rw k (retire_violating-keeps state service ids h)
      ]

  pub retire_surplus-keeps :
      (limit : ℕ) (state : ClusterState) (service : ServiceRecord) (ids : List Str)
      → I state.tasks
      → I (retire_surplus limit state service ids).state.tasks
  unfolding retire_surplus
  retire_surplus-keeps limit state service [] h = h
  retire_surplus-keeps limit state service (id ∷ ids) h =
      elim (Bool-cases (ltb limit (suc (length ids)))) [
        | inl k ↦ rw k (
            retire_surplus-keeps limit (retire_task state id service).0 service ids
              (retire_task-keeps state id service h))
        | inr k ↦ rw k h
      ]

  retire_first-keeps :
      (state : ClusterState) (service : ServiceRecord) (ids : List Str)
      → I state.tasks
      → I (retire_first state service ids).0.tasks
  unfolding retire_first
  retire_first-keeps state service [] h = h
  retire_first-keeps state service (id ∷ ids) h = retire_task-keeps state id service h

  pub stop_first-keeps :
      (state : ClusterState) (service : ServiceRecord) (current : ℕ) (old : List Str)
      → I state.tasks
      → I (stop_first state service current old).0.tasks
  unfolding stop_first
  stop_first-keeps state service current old h =
      elim (Bool-cases ((service.spec.max_surge == 0) && ltb current service.spec.replicas)) [
        | inl k ↦ rw k (retire_first-keeps state service (reverse old) h)
        | inr k ↦ rw k h
      ]

  -- All that the phases before `fill` do.
  pub make_room-keeps :
      (state : ClusterState) (service : ServiceRecord) (current old : List Str)
      → I state.tasks
      → I (make_room state service current old).0.tasks
  unfolding make_room
  make_room-keeps state service current old h =
      let scaled = retire_surplus service.spec.replicas state service current in
      let kept = service.spec.replicas - healthy_count scaled.state scaled.left in
      let trimmed = retire_surplus kept scaled.state service old in
      stop_first-keeps trimmed.state service (length scaled.left) trimmed.left (
        retire_surplus-keeps kept scaled.state service old
          (retire_surplus-keeps service.spec.replicas state service current h))

-- The count of a test that retiring does not see stays.
pub count-keeps :
    (p : TaskRecord → Bool) (n : ℕ)
    → ((routed : Bool) (t : TaskRecord) → p (retired routed t) ≡ p t)
    → (m : BTreeMap TaskRecord) (id : Str) (routed : Bool) → count p (values m) ≤ n
    → count p (values (update id (retired routed) m)) ≤ n
count-keeps p n h m id routed le = omega (arith, count-update_eq p id (retired routed) m (h routed))

-- The count of a test that no retired task passes does not grow.
pub count-shrinks :
    (p : TaskRecord → Bool) (n : ℕ)
    → ((routed : Bool) (t : TaskRecord) → p (retired routed t) ≡ false)
    → (m : BTreeMap TaskRecord) (id : Str) (routed : Bool) → count p (values m) ≤ n
    → count p (values (update id (retired routed) m)) ≤ n
count-shrinks p n h m id routed le =
    omega (arith, count-update_le p id (retired routed) m (h routed))

-- Retiring leaves every task under its id.
pub update-IsKeyed :
    (m : BTreeMap TaskRecord) (id : Str) (routed : Bool)
    → IsKeyed m
    → IsKeyed (update id (retired routed) m)
unfolding update retired
update-IsKeyed [] id routed h = tt
update-IsKeyed ((k, t) ∷ m) id routed h = elim (Bool-cases (str_eq k id)) [
  | inl e ↦ rw e (h.0, h.1, h.2)
  | inr e ↦
      rw e (h.0, ground (arith, get-update id k (retired routed) m), update-IsKeyed m id routed h.2)
]

module _ (new_v4 : ClusterState → Str) (service : ServiceRecord) (live_nodes : List Str) where
  -- Each round adds at most one task.
  pub count-create :
      (p : TaskRecord → Bool) (n : ℕ) (state : ClusterState)
      → count p (values (create new_v4 n state service live_nodes).0.tasks)
        ≤ count p (values state.tasks) + n
  unfolding create
  count-create p zero state = omega arith
  count-create p (suc n) state =
      elim (Option-cases (schedule_task new_v4 state service live_nodes)) [
        | inl e ↦ rw (e, create) (omega arith)
        | inr (task, e) ↦
            rw (e, create)
              (ground (
                arith,
                count-create p n (add_task state task),
                count-insert-le p task.id task state.tasks,
              ))
      ]
