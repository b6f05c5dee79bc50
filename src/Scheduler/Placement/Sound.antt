-- ===== src/Scheduler/Placement/Sound.antt =====
-- What `schedule_task` returns: where the new task is placed, and when there is none.
use mathlib.Core.Option
use swarmlite.Base.{
  ℕ, ◌+◌, ◌<◌, ◌≡◌, ◌≢◌, refl, sym, subst, true, false, none, some, List, [], ◌∷◌, Memᴰ, arith, all,
  Bool-cases, inl, inr, ◌⊎◌, count, filter-mem, mem-filter, Str, any-false, map-mem, is_some, ◌==◌,
}
use swarmlite.Base.Map.{values}
use swarmlite.Base.Sort.{sort_by-mem, mem-sort_by, sort_by-least}
use swarmlite.Cluster.{
  DesiredTaskState, ObservedTaskState, TaskRecord, NodeRecord, ServiceRecord, ClusterState,
}
use swarmlite.Scheduler.Constraints.{
  matches_constraints, node_has_replica_capacity, occupies, old_running_on,
}
use swarmlite.Scheduler.Ports.{allocate_ports, contains, contains_ℕ, node_bindings}
use swarmlite.Scheduler.Ports.Used.{no_clash, explicit_ports_available_lem}
use swarmlite.Scheduler.Placement.{
  key_lt, node_key, is_candidate, candidates, used_slots, first_free_slot, new_task, place_first,
  takes_slot, schedule_task,
}
use swarmlite.Scheduler.Placement.Order.{node_key-IsOrder}
use swarmlite.Scheduler.Placement.Slots.{first_free_slot-some, first_free_slot-none}

-- A per-node limit is respected: below it, or within one surge slot for each old task that still
-- runs on the node.
abbrev pub HasRoom : ClusterState → ServiceRecord → NodeRecord → ℕ → Type 0
HasRoom state service node limit =
    (count (occupies node service) (values state.tasks) < limit)
    ⊎ ((0 < service.spec.max_surge)
        × (count (occupies node service) (values state.tasks)
            < limit + count (old_running_on node service) (values state.tasks)))

-- A node on which a task of the service may be placed.
pub record IsEligible (state : ClusterState) (service : ServiceRecord) (live_nodes : List Str)
    (node : NodeRecord) : Type 0 where
  pub listed : Memᴰ node (values state.nodes)
  pub live : contains live_nodes node.id ≡ true
  pub constrained : matches_constraints node service.spec.constraints ≡ true
  pub room :
      (limit : ℕ)
      → service.spec.max_replicas_per_node ≡ some limit
      → limit ≢ 0
      → HasRoom state service node limit
  pub ports_free : all (no_clash (node_bindings state node.id)) service.spec.ports ≡ true

capacity-HasRoom :
    (state : ClusterState) (node : NodeRecord) (service : ServiceRecord) (limit : ℕ)
    → node_has_replica_capacity state node service ≡ true
    → service.spec.max_replicas_per_node ≡ some limit
    → limit ≢ 0
    → HasRoom state service node limit
unfolding node_has_replica_capacity
capacity-HasRoom state node service limit h e n = ground arith

candidate-IsEligible :
    (state : ClusterState) (service : ServiceRecord) (live_nodes : List Str) (node : NodeRecord)
    → Memᴰ node (values state.nodes)
    → is_candidate state service live_nodes node ≡ true
    → IsEligible state service live_nodes node
unfolding is_candidate
candidate-IsEligible state service live_nodes node m h = record {
  listed = m;
  live = ground arith;
  constrained = ground arith;
  room = λ limit e n. capacity-HasRoom state node service limit (ground arith) e n;
  ports_free = rw (← explicit_ports_available_lem state node service.spec) (ground arith);
}

-- A task as `schedule_task` makes it.
pub record IsPlaced (state : ClusterState) (service : ServiceRecord) (live_nodes : List Str)
    (id : Str) (task : TaskRecord) : Type 0 where
  pub node : NodeRecord
  pub eligible : IsEligible state service live_nodes node
  pub on_node : task.node_id ≡ node.id
  pub least_loaded :
      (other : NodeRecord)
      → Memᴰ other (values state.nodes)
      → is_candidate state service live_nodes other ≡ true
      → key_lt (node_key state service other) (node_key state service node) ≡ false
  pub slot_in_range : task.slot < service.spec.replicas
  pub slot_free :
      (t : TaskRecord)
      → Memᴰ t (values state.tasks)
      → takes_slot service t ≡ true
      → t.slot ≢ task.slot
  pub of_service : task.service_id ≡ service.id
  pub of_revision : task.revision ≡ service.revision
  pub wanted : task.desired ≡ DesiredTaskState.running
  pub not_yet_seen : task.observed ≡ ObservedTaskState.pending
  pub no_job : is_some task.job ≡ false
  pub named : task.id ≡ id

module _ (state : ClusterState) (service : ServiceRecord) (live_nodes : List Str) where
  candidates-mem :
      {node : NodeRecord}
      → Memᴰ node (candidates state service live_nodes)
      → Memᴰ node (values state.nodes) × (is_candidate state service live_nodes node ≡ true)
  unfolding candidates
  candidates-mem m =
      filter-mem (is_candidate state service live_nodes) (values state.nodes) (sort_by-mem _ _ m)

  mem-candidates :
      {node : NodeRecord}
      → Memᴰ node (values state.nodes)
      → is_candidate state service live_nodes node ≡ true
      → Memᴰ node (candidates state service live_nodes)
  unfolding candidates
  mem-candidates m h =
      mem-sort_by _ _ (mem-filter (is_candidate state service live_nodes) (values state.nodes) m h)

  candidates-least :
      {node : NodeRecord} {rest : List NodeRecord}
      → candidates state service live_nodes ≡ node ∷ rest
      → (other : NodeRecord) → Memᴰ other (values state.nodes)
      → is_candidate state service live_nodes other ≡ true
      → key_lt (node_key state service other) (node_key state service node) ≡ false
  unfolding candidates
  candidates-least e other m h =
      sort_by-least _ (node_key-IsOrder state service) _ e other
        (mem-filter (is_candidate state service live_nodes) (values state.nodes) m h)

  slot-free :
      (slot : ℕ)
      → contains_ℕ (used_slots state service) slot ≡ false
      → (t : TaskRecord) → Memᴰ t (values state.tasks)
      → takes_slot service t ≡ true
      → t.slot ≢ slot
  unfolding used_slots
  slot-free slot h t m k e =
      let f =
        any-false (λ j. j == slot) _ h
          (map-mem (λ (t : TaskRecord). t.slot) _ (mem-filter (takes_slot service) _ m k)) in
      ground arith

module _ (new_v4 : ClusterState → Str) (state : ClusterState) (service : ServiceRecord)
    (live_nodes : List Str) where
  -- The head of the candidates and the first free slot make the task.
  place_first-IsPlaced :
      (nodes : List NodeRecord) {task : TaskRecord}
      → candidates state service live_nodes ≡ nodes
      → place_first new_v4 state service nodes ≡ some task
      → IsPlaced state service live_nodes (new_v4 state) task
  unfolding place_first new_task allocate_ports
  place_first-IsPlaced [] e h = cc
  place_first-IsPlaced (node ∷ rest) {task} e h =
      let (slot, found, made) = (Option.map-eq-some_iff _ _).0 h in
      let s = first_free_slot-some service.spec.replicas 0 (used_slots state service) found in
      let (listed, is_c) =
        candidates-mem state service live_nodes (subst (Memᴰ node) (sym e) (Memᴰ.head refl)) in
      subst (IsPlaced state service live_nodes (new_v4 state)) made (record {
        node = node;
        eligible = candidate-IsEligible state service live_nodes node listed is_c;
        on_node = refl;
        least_loaded = candidates-least state service live_nodes e;
        slot_in_range = omega arith;
        slot_free = slot-free state service live_nodes slot s.2;
        of_service = refl;
        of_revision = refl;
        wanted = refl;
        not_yet_seen = refl;
        no_job = refl;
        named = refl;
      })

  -- A scheduled task stands on a live node that matches the constraints, has room under the
  -- per-node limit and none of the fixed ports in use, and no other candidate has a smaller sort
  -- key. Its slot is below the replica count, and no running task of the revision has it. It is
  -- wanted running, not yet observed, and has the id drawn for it.
  pub schedule_task-IsPlaced :
      {task : TaskRecord}
      → schedule_task new_v4 state service live_nodes ≡ some task
      → IsPlaced state service live_nodes (new_v4 state) task
  unfolding schedule_task
  schedule_task-IsPlaced h = place_first-IsPlaced (candidates state service live_nodes) refl h

  place_first-none :
      (nodes : List NodeRecord)
      → place_first new_v4 state service nodes ≡ none
      → (nodes ≡ []) ⊎ (first_free_slot service.spec.replicas 0 (used_slots state service) ≡ none)
  unfolding place_first allocate_ports
  place_first-none [] h = inl refl
  place_first-none (node ∷ rest) h = inr ((Option.map-eq-none_iff _ _).0 h)

  -- No task is scheduled only if no listed node is a candidate, or every slot below the replica
  -- count is taken by a running task of the revision.
  pub schedule_task-none :
      schedule_task new_v4 state service live_nodes ≡ none
      → ((node : NodeRecord)
          → Memᴰ node (values state.nodes)
          → is_candidate state service live_nodes node ≡ false)
        ⊎ ((slot : ℕ)
            → slot < service.spec.replicas
            → contains_ℕ (used_slots state service) slot ≡ true)
  unfolding schedule_task
  schedule_task-none h = elim (place_first-none (candidates state service live_nodes) h) [
    | inl e ↦ inl (λ node m. elim (Bool-cases (is_candidate state service live_nodes node)) [
      | inl k ↦ elim (subst (Memᴰ node) e (mem-candidates state service live_nodes m k)) [ ]
      | inr k ↦ k
    ])
    | inr e ↦ inr (λ slot p.
        first_free_slot-none service.spec.replicas 0 (used_slots state service) e slot (omega arith)
          (omega arith))
  ]
