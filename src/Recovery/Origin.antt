-- ===== src/Recovery/Origin.antt =====
-- recovery.rs, `adopt_unclaimed_tasks`: where the tasks come from.
use swarmlite.Base.{
  ℕ, ◌≡◌, refl, sym, ap, ◌∙◌, true, false, Option, none, some, List, [], ◌∷◌, ◌&&◌, ◌||◌, not, ◌⊎◌,
  inl, inr, arith, filter, filter-mem, is_none, is_some, Memᴰ, Bool-cases, cases_cons, ||-false,
  Str, str_eq, str_eq_iff,
}
use swarmlite.Base.Map.{BTreeMap, get, remove, values, contains_key, get-insert, get-remove}
use swarmlite.Base.Sort.{sort_by-mem}
use swarmlite.Cluster.{
  ServiceSpec, StackRecord, TaskRecord, UnclaimedTask, ServiceRecord, ClusterState,
}
use swarmlite.Scheduler.Ports.{contains_ℕ, service_ports}
use swarmlite.Recovery.Adoption.{
  adopted_task, claim, adopt_candidates, slots_of, is_adoptable, candidate_lt, recovery_candidates,
  adopt_services, adopt_unclaimed_tasks,
}

values-remove {ℓ} :
    {V : Type ℓ} (k : Str) (m : BTreeMap V) {v : V}
    → Memᴰ v (values (remove k m))
    → Memᴰ v (values m)
unfolding values remove
values-remove k [] h = h
values-remove k ((j, w) ∷ m) h = elim (Bool-cases (str_eq j k)) [
  | inl e ↦ Memᴰ.tail (values-remove k m (rw e at h))
  | inr e ↦ elim (cases_cons (rw e at h)) [
    | inl same ↦ Memᴰ.head same
    | inr t ↦ Memᴰ.tail (values-remove k m t)
  ]
]

is_some-false {ℓ} : {A : Type ℓ} (o : Option A) → is_some o ≡ false → o ≡ none
is_some-false none h = refl
is_some-false (some a) h = cc

-- A task of the unclaimed ones, as a task of the service whose specification, ports, slots and
-- revision it fits.
pub record IsClaimed (service_spec_hash : ServiceSpec → Str) (state : ClusterState)
    (task : TaskRecord) : Type 0 where
  pub service : ServiceRecord
  pub unclaimed : UnclaimedTask
  pub of_service : Memᴰ service (values state.services)
  pub was_unclaimed : Memᴰ unclaimed (values state.unclaimed_tasks)
  pub fits : is_adoptable service_spec_hash state service unclaimed ≡ true
  pub claimed : task ≡ adopted_task service unclaimed

module _ (hash : ServiceSpec → Str) (start : ClusterState) (j : Str) where
  -- The task under `j` is as before, or has been claimed.
  abbrev Outcome : ClusterState → ClusterState → Type 0
  Outcome before after =
      (get after.tasks j ≡ get before.tasks j)
      ⊎ ((get before.tasks j ≡ none)
          × ((task : TaskRecord) × (get after.tasks j ≡ some task)
              × IsClaimed hash start task
              × (get after.unclaimed_tasks j ≡ none)))

  -- What stays of the start.
  record IsLater (state : ClusterState) : Type 0 where
    stacks : state.stacks ≡ start.stacks
    unclaimed :
        (u : UnclaimedTask)
        → Memᴰ u (values state.unclaimed_tasks)
        → Memᴰ u (values start.unclaimed_tasks)

  claim-IsLater :
      (state : ClusterState) (service : ServiceRecord) (c : UnclaimedTask)
      → IsLater state
      → IsLater (claim state service c)
  unfolding claim
  claim-IsLater state service c l = record {
    stacks = l.stacks;
    unclaimed = λ u m. l.unclaimed u (values-remove c.id state.unclaimed_tasks m);
  }

  candidates-IsLater :
      (service : ServiceRecord) (cs : List UnclaimedTask) (state : ClusterState) (occupied : List ℕ)
      → IsLater state
      → IsLater (adopt_candidates state service occupied cs)
  unfolding adopt_candidates
  candidates-IsLater service [] state occupied l = l
  candidates-IsLater service (c ∷ cs) state occupied l =
      elim (Bool-cases (contains_ℕ occupied c.slot || contains_key state.tasks c.id)) [
        | inl k ↦ rw k (candidates-IsLater service cs state occupied l)
        | inr k ↦ rw k (
            candidates-IsLater service cs (claim state service c) (c.slot ∷ occupied)
              (claim-IsLater state service c l))
      ]

  -- Nothing becomes unclaimed.
  unclaimed-none :
      (service : ServiceRecord) (cs : List UnclaimedTask) (state : ClusterState) (occupied : List ℕ)
      → get state.unclaimed_tasks j ≡ none
      → get (adopt_candidates state service occupied cs).unclaimed_tasks j ≡ none
  unfolding adopt_candidates claim
  unclaimed-none service [] state occupied h = h
  unclaimed-none service (c ∷ cs) state occupied h =
      elim (Bool-cases (contains_ℕ occupied c.slot || contains_key state.tasks c.id)) [
        | inl k ↦ rw k (unclaimed-none service cs state occupied h)
        | inr k ↦ rw k (
            unclaimed-none service cs (claim state service c) (c.slot ∷ occupied)
              (rw get-remove (ground (arith, h))))
      ]

  Outcome-trans :
      (before mid after : ClusterState)
      → (get mid.unclaimed_tasks j ≡ none → get after.unclaimed_tasks j ≡ none)
      → Outcome before mid
      → Outcome mid after
      → Outcome before after
  Outcome-trans before mid after gone (inl e) (inl e') = inl (e' ∙ e)
  Outcome-trans before mid after gone (inl e) (inr (n, (t, g, c, u))) =
      inr (sym e ∙ n, (t, g, c, u))
  Outcome-trans before mid after gone (inr (n, (t, g, c, u))) (inl e') =
      inr (n, (t, e' ∙ g, c, gone u))
  Outcome-trans before mid after gone (inr (n, (t, g, c, u))) (inr (n', r)) = absurd (cc (g, n'))

  claim-Outcome :
      (service : ServiceRecord) (c : UnclaimedTask) (state : ClusterState)
      → contains_key state.tasks c.id ≡ false
      → IsClaimed hash start (adopted_task service c)
      → Outcome state (claim state service c)
  unfolding claim
  claim-Outcome service c state free good = elim (Bool-cases (str_eq c.id j)) [
    | inl e ↦
        let same : c.id ≡ j = (str_eq_iff c.id j).0 e in
        inr (
          is_some-false (get state.tasks j) (ap (contains_key state.tasks) (sym same) ∙ free),
          (adopted_task service c, rw (get-insert, e) refl, good, rw (get-remove, e) refl),
        )
    | inr e ↦ inl (rw (get-insert, e) refl)
  ]

  candidates-Outcome :
      (service : ServiceRecord) (cs : List UnclaimedTask) (state : ClusterState) (occupied : List ℕ)
      → ((c : UnclaimedTask) → Memᴰ c cs → IsClaimed hash start (adopted_task service c))
      → Outcome state (adopt_candidates state service occupied cs)
  unfolding adopt_candidates
  candidates-Outcome service [] state occupied good = inl refl
  candidates-Outcome service (c ∷ cs) state occupied good =
      let rest = λ (s : ClusterState) (o : List ℕ).
        candidates-Outcome service cs s o (λ c' m. good c' (Memᴰ.tail m)) in
      elim (Bool-cases (contains_ℕ occupied c.slot || contains_key state.tasks c.id)) [
        | inl k ↦ rw k (rest state occupied)
        | inr k ↦
            let next = claim state service c in
            rw k (
              Outcome-trans state next (adopt_candidates next service (c.slot ∷ occupied) cs)
                (unclaimed-none service cs next (c.slot ∷ occupied))
                (claim-Outcome service c state (||-false _ _ k).1 (good c (Memᴰ.head refl)))
                (rest next (c.slot ∷ occupied)))
      ]

  -- The candidates of a service fit it already at the start.
  candidate-IsClaimed :
      (state : ClusterState) (service : ServiceRecord) (c : UnclaimedTask)
      → IsLater state
      → Memᴰ service (values start.services)
      → Memᴰ c (recovery_candidates hash state service)
      → IsClaimed hash start (adopted_task service c)
  unfolding recovery_candidates is_adoptable service_ports
  candidate-IsClaimed state service c l m mem =
      let found = filter-mem (is_adoptable hash state service) _ (sort_by-mem candidate_lt _ mem) in
      record {
        service = service;
        unclaimed = c;
        of_service = m;
        was_unclaimed = l.unclaimed c found.0;
        fits =
            ap
              (λ (stacks : BTreeMap StackRecord).
                is_adoptable hash (record start { stacks = stacks }) service c)
              (sym l.stacks)
            ∙ found.1;
        claimed = refl;
      }

  services-Outcome :
      (services : List ServiceRecord) (state : ClusterState)
      → IsLater state
      → ((s : ServiceRecord) → Memᴰ s services → Memᴰ s (values start.services))
      → Outcome state (adopt_services hash state services)
        × (get state.unclaimed_tasks j ≡ none
            → get (adopt_services hash state services).unclaimed_tasks j ≡ none)
  unfolding adopt_services
  services-Outcome [] state l known = (inl refl, λ h. h)
  services-Outcome (service ∷ services) state l known =
      let cs = recovery_candidates hash state service in
      let next = adopt_candidates state service (slots_of service.id state) cs in
      let rest =
        services-Outcome services next
          (candidates-IsLater service cs state (slots_of service.id state) l)
          (λ s m. known s (Memᴰ.tail m)) in
      let gone = unclaimed-none service cs state (slots_of service.id state) in
      (
        Outcome-trans state next (adopt_services hash next services) rest.1
            (candidates-Outcome service cs state (slots_of service.id state)
              (λ c m. candidate-IsClaimed state service c l (known service (Memᴰ.head refl)) m))
            rest.0,
        λ h. rest.1 (gone h),
      )

-- Under every task id, adoption either leaves what there was, or there was no task and there is now
-- one made from a task that was unclaimed, for a service of the cluster whose stack, name,
-- specification, slots, ports and revision it fits; and nothing is unclaimed under that id any more.
pub adopt_unclaimed_tasks-IsClaimed :
    (service_spec_hash : ServiceSpec → Str) (state : ClusterState) (stack_name id : Str)
    → let after = adopt_unclaimed_tasks service_spec_hash state stack_name in
      (get after.tasks id ≡ get state.tasks id)
      ⊎ ((get state.tasks id ≡ none)
          × ((task : TaskRecord) × (get after.tasks id ≡ some task)
              × IsClaimed service_spec_hash state task
              × (get after.unclaimed_tasks id ≡ none)))
unfolding adopt_unclaimed_tasks
adopt_unclaimed_tasks-IsClaimed hash state stack_name id =
    (services-Outcome hash state id
      (filter (λ s. str_eq s.stack stack_name && not s.deleted && is_none s.spec.job)
        (values state.services))
      state (record { stacks = refl; unclaimed = λ u m. m })
      (λ s m. (filter-mem _ (values state.services) m).0)).0
