-- ===== src/Recovery/Slots.antt =====
-- recovery.rs, `adopt_unclaimed_tasks`: the tasks in one slot of a service.

use swarmlite.Base.{
  ℕ, ◌+◌, ◌≤◌, ◌≡◌, refl, max, ap, sym, ◌∙◌, ||-false, Bool, true, false, List, [], ◌∷◌, map, ◌&&◌,
  ◌||◌, not, arith, if◌then◌else◌, ◌==◌, filter, any, count, Bool-cases, inl, inr, Str, str_eq,
  str_eq_iff,
}
use swarmlite.Base.Map.{values, contains_key}
use swarmlite.Base.Tally.{count-insert-le}
use swarmlite.Cluster.{ServiceSpec, TaskRecord, UnclaimedTask, ServiceRecord, ClusterState}
use swarmlite.Scheduler.Ports.{contains_ℕ}
use swarmlite.Recovery.Adoption.{
  adopted_task, claim, adopt_candidates, occupies_slot, slots_of, recovery_candidates,
  adopt_services, adopt_unclaimed_tasks,
}

-- The task takes the slot of the service.
abbrev pub is_in_slot : Str → ℕ → TaskRecord → Bool
is_in_slot id slot task = occupies_slot id task && task.slot == slot

module _ (id : Str) (slot : ℕ) where
  abbrev in_slot : ClusterState → ℕ
  in_slot state = count (is_in_slot id slot) (values state.tasks)

  -- Where the service's slot is not known as taken, it is free.
  abbrev is_known : ServiceRecord → List ℕ → ClusterState → Bool
  is_known service occupied state =
      not (str_eq service.id id) || contains_ℕ occupied slot || in_slot state == 0

  is_in_slot-adopted :
      (service : ServiceRecord) (c : UnclaimedTask)
      → is_in_slot id slot (adopted_task service c) ≡ (str_eq service.id id && c.slot == slot)
  unfolding adopted_task occupies_slot
  is_in_slot-adopted service c = ground arith

  in_slot-claim :
      (state : ClusterState) (service : ServiceRecord) (c : UnclaimedTask)
      → in_slot (claim state service c)
        ≤ in_slot state + (if str_eq service.id id && c.slot == slot then 1 else 0)
  unfolding claim
  in_slot-claim state service c = ground (
    arith,
    count-insert-le (is_in_slot id slot) c.id (adopted_task service c) state.tasks,
    is_in_slot-adopted service c,
  )

  -- A claim makes its slot known, and leaves the others.
  next_known :
      (state : ClusterState) (service : ServiceRecord) (c : UnclaimedTask) (occupied : List ℕ)
      → is_known service occupied state ≡ true
      → (contains_ℕ occupied c.slot || contains_key state.tasks c.id) ≡ false
      → is_known service (c.slot ∷ occupied) (claim state service c) ≡ true
  unfolding any
  next_known state service c occupied known k =
      elim (Bool-cases (str_eq service.id id && c.slot == slot)) [
        | inl e ↦ ground arith
        | inr e ↦ ground (arith, in_slot-claim state service c)
      ]

  next_bound :
      (n : ℕ) (state : ClusterState) (service : ServiceRecord) (c : UnclaimedTask)
      (occupied : List ℕ)
      → 1 ≤ n
      → is_known service occupied state ≡ true
      → (contains_ℕ occupied c.slot || contains_key state.tasks c.id) ≡ false
      → in_slot state ≤ n
      → in_slot (claim state service c) ≤ n
  next_bound n state service c occupied one known k h =
      elim (Bool-cases (str_eq service.id id && c.slot == slot)) [
        | inl e ↦
            let same : c.slot ≡ slot = ground arith in
            let free : contains_ℕ occupied slot ≡ false =
              ap (contains_ℕ occupied) (sym same) ∙ (||-false _ _ k).0 in
            ground (arith, in_slot-claim state service c, free)
        | inr e ↦ ground (arith, in_slot-claim state service c)
      ]

  in_slot-candidates :
      (n : ℕ) (service : ServiceRecord) (cs : List UnclaimedTask) (state : ClusterState)
      (occupied : List ℕ)
      → 1 ≤ n
      → is_known service occupied state ≡ true
      → in_slot state ≤ n
      → in_slot (adopt_candidates state service occupied cs) ≤ n
  unfolding adopt_candidates any
  in_slot-candidates n service [] state occupied one known h = h
  in_slot-candidates n service (c ∷ cs) state occupied one known h =
      elim (Bool-cases (contains_ℕ occupied c.slot || contains_key state.tasks c.id)) [
        | inl k ↦ rw k (in_slot-candidates n service cs state occupied one known h)
        | inr k ↦ rw k (
            in_slot-candidates n service cs (claim state service c) (c.slot ∷ occupied) one
              (next_known state service c occupied known k)
              (next_bound n state service c occupied one known k h))
      ]

  -- The slots that are taken at the start are known.
  slots_of-known :
      (service : ServiceRecord) (ts : List TaskRecord)
      → (not (str_eq service.id id)
          || contains_ℕ (map (λ t. t.slot) (filter (occupies_slot service.id) ts)) slot
          || count (is_in_slot id slot) ts == 0)
        ≡ true
  unfolding any filter count
  slots_of-known service [] = ground arith
  slots_of-known service (t ∷ ts) = elim (Bool-cases (str_eq service.id id)) [
    | inr e ↦ rw e refl
    | inl e ↦
        let same : service.id ≡ id = (str_eq_iff service.id id).0 e in
        ground (arith, slots_of-known service ts, ap (λ i. occupies_slot i t) same)
  ]

  in_slot-services :
      (hash : ServiceSpec → Str) (n : ℕ) (services : List ServiceRecord) (state : ClusterState)
      → 1 ≤ n
      → in_slot state ≤ n
      → in_slot (adopt_services hash state services) ≤ n
  unfolding adopt_services slots_of
  in_slot-services hash n [] state one h = h
  in_slot-services hash n (service ∷ services) state one h =
      let cs = recovery_candidates hash state service in
      in_slot-services hash n services
        (adopt_candidates state service (slots_of service.id state) cs) one
        (in_slot-candidates n service cs state (slots_of service.id state) one
          (slots_of-known service (values state.tasks)) h)

-- Adoption never puts a second task into a slot: for every service id and slot, the tasks that take
-- the slot and are not stopped are afterwards at most one, or as many as before.
pub adopt_unclaimed_tasks_exclusive :
    (service_spec_hash : ServiceSpec → Str) (state : ClusterState) (stack_name id : Str) (slot : ℕ)
    → count
        (is_in_slot id slot)
        (values (adopt_unclaimed_tasks service_spec_hash state stack_name).tasks)
      ≤ max 1 (count (is_in_slot id slot) (values state.tasks))
unfolding adopt_unclaimed_tasks
adopt_unclaimed_tasks_exclusive hash state stack_name id slot =
    in_slot-services id slot hash (max 1 (count (is_in_slot id slot) (values state.tasks))) _ state
      (omega arith) (omega arith)
