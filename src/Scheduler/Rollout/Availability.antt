-- ===== src/Scheduler/Rollout/Availability.antt =====
-- scheduler.rs, `reconcile_service`: the tasks that serve during a rolling update.
use mathlib.Core.Option
use native.Mathlib.Nat.{le_refl}
use swarmlite.Base.{
  ℕ, zero, suc, ◌+◌, ◌-◌, ◌≤◌, min, ◌≡◌, ◌≢◌, refl, ap, ◌∙◌, Bool, true, false, none, some, List,
  [], ◌∷◌, Memᴰ, arith, length, count, ◌&&◌, ltb, is_some_and, Str, Bool-cases, Option-cases, inl,
  inr,
}
use swarmlite.Base.Map.{get, get-mem, values}
use swarmlite.Base.Tally.{count-insert, count-update_skip}
use swarmlite.Cluster.{TaskRecord, ServiceRecord, ClusterState}
use swarmlite.Scheduler.Ports.{is_service_http_routed}
use swarmlite.Scheduler.Placement.{schedule_task}
use swarmlite.Scheduler.Placement.Sound.{schedule_task-IsPlaced}
use swarmlite.Scheduler.Rollout.Retire.{retired, retire_at, retire_surplus, service_task_ids}
use swarmlite.Scheduler.Rollout.Phases.{
  violates, retire_violating, runs_current, runs_old, select, is_ready, healthy_count, stop_first,
  make_room, desired_current, desired_old, can_create, needed, add_task, create, fill,
  reconcile_service,
}
use swarmlite.Scheduler.Rollout.Listed.{
  IsKeyed, ReadsRunning, Lists, Lists-head, Lists-step, retire_task-tasks, retire_surplus-Lists,
}
use swarmlite.Scheduler.Rollout.Select.{select-Lists, healthy_count-select}

-- `Uuid::new_v4` draws an id that no task has.
abbrev pub Fresh : (ClusterState → Str) → Type 0
Fresh new_v4 = (state : ClusterState) → get state.tasks (new_v4 state) ≡ none

retire_violating-none :
    (state : ClusterState) (service : ServiceRecord) (ids : List Str)
    → ((t : TaskRecord) → Memᴰ t (values state.tasks) → violates state service t ≡ false)
    → retire_violating state service ids ≡ (state, false)
unfolding retire_violating
retire_violating-none state service [] h = refl
retire_violating-none state service (id ∷ ids) h = elim (Option-cases (get state.tasks id)) [
  | inl e ↦ rw e (rw (retire_violating-none state service ids h) refl)
  | inr (t, e) ↦
      rw e
        (rw (h t (get-mem state.tasks id e)) (rw (retire_violating-none state service ids h) refl))
]

retire_surplus-short :
    (limit : ℕ) (state : ClusterState) (service : ServiceRecord) (ids : List Str)
    → length ids ≤ limit
    → retire_surplus limit state service ids ≡ record { state = state; left = ids; changed = false }
unfolding retire_surplus
retire_surplus-short limit state service [] h = refl
retire_surplus-short limit state service (id ∷ ids) h =
    elim (Bool-cases (ltb limit (suc (length ids)))) [
      | inl k ↦ absurd (ground arith)
      | inr k ↦ rw k refl
    ]

-- Retiring tasks that pass one test leaves the count of a test that excludes it.
retire_surplus-other :
    (limit : ℕ) (state : ClusterState) (service : ServiceRecord) (p q : TaskRecord → Bool)
    (ids : List Str)
    → ReadsRunning p
    → ((t : TaskRecord) → p t ≡ true → q t ≡ false)
    → ((routed : Bool) (t : TaskRecord) → q (retired routed t) ≡ false)
    → Lists state.tasks p ids
    → count q (values (retire_surplus limit state service ids).state.tasks)
      ≡ count q (values state.tasks)
unfolding retire_surplus
retire_surplus-other limit state service p q [] r d g l = refl
retire_surplus-other limit state service p q (id ∷ ids) r d g l =
    elim (Bool-cases (ltb limit (suc (length ids)))) [
      | inr k ↦ rw k refl
      | inl k ↦
          let routed = is_service_http_routed state service in
          let skip =
            count-update_skip q id (retired routed) state.tasks (g routed)
              (excluded (get state.tasks id) (Lists-head l)) in
          rw k (
            rw (retire_task-tasks state id service r (Lists-head l)) (
              retire_surplus-other limit (retire_at state id service) service p q ids r d g
                (Lists-step state.tasks p routed id ids r l)
              ∙ skip))
    ]
  where
    excluded : (o : Option.Option TaskRecord) → is_some_and o p ≡ true → is_some_and o q ≡ false
    excluded Option.none h = refl
    excluded (Option.some t) h = d t h

module _ (new_v4 : ClusterState → Str) (fresh : Fresh new_v4) (service : ServiceRecord)
    (live_nodes : List Str) where
  create-keeps :
      (p : TaskRecord → Bool) (n : ℕ) (state : ClusterState)
      → count p (values state.tasks)
        ≤ count p (values (create new_v4 n state service live_nodes).0.tasks)
  unfolding create
  create-keeps p zero state = le_refl _
  create-keeps p (suc n) state =
      elim (Option-cases (schedule_task new_v4 state service live_nodes)) [
        | inl e ↦ rw (e, create) (le_refl _)
        | inr (task, e) ↦
            let named = (schedule_task-IsPlaced new_v4 state service live_nodes e).named in
            rw (e, create)
              (ground (
                arith,
                create-keeps p n (add_task state task),
                count-insert p task.id task state.tasks (ap (get state.tasks) named ∙ fresh state),
              ))
      ]

  fill-keeps :
      (p : TaskRecord → Bool) (state : ClusterState)
      → count p (values state.tasks)
        ≤ count p (values (fill new_v4 state service live_nodes).0.tasks)
  unfolding fill
  fill-keeps p state =
      create-keeps p (min (needed state service live_nodes) (can_create state service live_nodes))
        state

-- Tasks of the active revision that serve: wanted, on a live node, healthy, ports published.
abbrev pub serves_current : ServiceRecord → List Str → TaskRecord → Bool
serves_current service live_nodes t = desired_current service live_nodes t && is_ready t

desired_old-ReadsRunning :
    (service : ServiceRecord) (live_nodes : List Str)
    → ReadsRunning (desired_old service live_nodes)
unfolding retired runs_old
desired_old-ReadsRunning service live_nodes = record {
  gone = λ routed t. ground arith;
  running = λ t h. ground arith;
}

serves_current-gone :
    (service : ServiceRecord) (live_nodes : List Str) (routed : Bool) (t : TaskRecord)
    → serves_current service live_nodes (retired routed t) ≡ false
unfolding retired runs_current
serves_current-gone service live_nodes routed t = ground arith

old-not-current :
    (service : ServiceRecord) (live_nodes : List Str) (t : TaskRecord)
    → desired_old service live_nodes t ≡ true
    → serves_current service live_nodes t ≡ false
unfolding runs_old runs_current
old-not-current service live_nodes t h = ground arith

stop_first-surge :
    (state : ClusterState) (service : ServiceRecord) (current : ℕ) (old : List Str)
    → service.spec.max_surge ≢ 0
    → stop_first state service current old ≡ (state, false)
unfolding stop_first
stop_first-surge state service current old n = ground arith

module _ (state : ClusterState) (service : ServiceRecord) (live_nodes : List Str)
    (current old : List Str) (surge : service.spec.max_surge ≢ 0)
    (fits : length current ≤ service.spec.replicas)
    (ready : healthy_count state current
      ≡ count (serves_current service live_nodes) (values state.tasks))
    (olds : Lists state.tasks (desired_old service live_nodes) old) where
  abbrev kept : ℕ
  kept = service.spec.replicas - healthy_count state current

  make_room-eq :
      (make_room state service current old).0 ≡ (retire_surplus kept state service old).state
  unfolding make_room
  make_room-eq = rw (retire_surplus-short service.spec.replicas state service current fits) (
      rw
        (stop_first-surge (retire_surplus kept state service old).state service (length current)
          (retire_surplus kept state service old).left surge)
        refl)

  make_room-serves :
      min service.spec.replicas (
        count (serves_current service live_nodes) (values state.tasks)
        + count (desired_old service live_nodes) (values state.tasks))
      ≤ count
          (serves_current service live_nodes)
          (values (make_room state service current old).0.tasks)
        + count
            (desired_old service live_nodes)
            (values (make_room state service current old).0.tasks)
  make_room-serves =
      let r = desired_old-ReadsRunning service live_nodes in
      let p = desired_old service live_nodes in
      let q = serves_current service live_nodes in
      let (lists, short) = retire_surplus-Lists kept state service p old r olds in
      let same =
        retire_surplus-other kept state service p q old r (old-not-current service live_nodes)
          (serves_current-gone service live_nodes) olds in
      rw make_room-eq (omega (arith, same, short, lists.complete, olds.complete, ready))

-- A rolling update with surge keeps serving. If no task violates the constraints, the service is
-- not scaled down, ids are fresh and every task stands under its id, then after a pass the ready
-- tasks of the active revision and the running tasks of older revisions together are at least as
-- many as before, or as many as `replicas`.
pub reconcile_service_availability :
    (new_v4 : ClusterState → Str) (state : ClusterState) (service : ServiceRecord)
    (live_nodes : List Str)
    → Fresh new_v4
    → IsKeyed state.tasks
    → ((t : TaskRecord) → Memᴰ t (values state.tasks) → violates state service t ≡ false)
    → count (desired_current service live_nodes) (values state.tasks) ≤ service.spec.replicas
    → service.spec.max_surge ≢ 0
    → min service.spec.replicas (
        count (serves_current service live_nodes) (values state.tasks)
        + count (desired_old service live_nodes) (values state.tasks))
      ≤ count
          (serves_current service live_nodes)
          (values (reconcile_service new_v4 state service live_nodes).0.tasks)
        + count
            (desired_old service live_nodes)
            (values (reconcile_service new_v4 state service live_nodes).0.tasks)
unfolding reconcile_service
reconcile_service_availability new_v4 state service live_nodes fresh keyed fine fits surge =
    let ids = service_task_ids state service in
    let current = select state (runs_current service live_nodes) ids in
    let old = select state (runs_old service live_nodes) ids in
    let listed = select-Lists state service (runs_current service live_nodes) keyed in
    let room = (make_room state service current old).0 in
    rw (retire_violating-none state service ids fine) (
      omega (
        arith,
        make_room-serves state service live_nodes current old surge (omega (arith, listed.complete))
            (healthy_count-select state service (runs_current service live_nodes) keyed)
            (select-Lists state service (runs_old service live_nodes) keyed),
        fill-keeps new_v4 fresh service live_nodes (serves_current service live_nodes) room,
        fill-keeps new_v4 fresh service live_nodes (desired_old service live_nodes) room,
      ))
