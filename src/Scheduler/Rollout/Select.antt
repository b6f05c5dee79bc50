-- ===== src/Scheduler/Rollout/Select.antt =====
-- The vectors that `reconcile_service` starts from list what they should.
use mathlib.Core.List.{reverse}
use swarmlite.Base.{
  ◌≤◌, ◌≡◌, refl, ap, ◌∙◌, Bool, true, none, some, List, [], ◌∷◌, map, Memᴰ, ◌&&◌, arith, filter,
  length, count, Bool-cases, inl, inr, is_some_and, Str, str_eq, str_eq_iff, str_lt,
}
use swarmlite.Base.Map.{BTreeMap, get, values}
use swarmlite.Base.Sort.{sort_by}
use swarmlite.Base.Tally.{count-sort_by, count-reverse, count-true}
use swarmlite.Cluster.{TaskRecord, ServiceRecord, ClusterState}
use swarmlite.Scheduler.Rollout.Retire.{service_task_ids}
use swarmlite.Scheduler.Rollout.Phases.{is_ready, healthy_count, select}
use swarmlite.Scheduler.Rollout.Listed.{IsKeyed, IsKeyed-get, tally, fails, Lists}

-- The initial vectors.
module _ (m : BTreeMap TaskRecord) (p q : TaskRecord → Bool) where
  -- The ids of the tasks of a list that pass a test, read back through the map.
  abbrev ids_of : List TaskRecord → List Str
  ids_of l = filter (λ id. is_some_and (get m id) p) (map (λ t. t.id) (filter q l))

  abbrev Stored : List TaskRecord → Type 0
  Stored l = (t : TaskRecord) → Memᴰ t l → get m t.id ≡ some t

  length-ids_of : (l : List TaskRecord) → Stored l → length (ids_of l) ≡ count (λ t. q t && p t) l
  unfolding filter count
  length-ids_of [] h = refl
  length-ids_of (t ∷ l) h =
      ground (arith, h t (Memᴰ.head refl), length-ids_of l (λ u e. h u (Memᴰ.tail e)))

  ready-ids_of :
      (l : List TaskRecord)
      → Stored l
      → count (λ id. is_some_and (get m id) is_ready) (ids_of l)
        ≡ count (λ t. (q t && p t) && is_ready t) l
  unfolding filter count
  ready-ids_of [] h = refl
  ready-ids_of (t ∷ l) h =
      ground (arith, h t (Memᴰ.head refl), ready-ids_of l (λ u e. h u (Memᴰ.tail e)))

  ids_of-pass : (l : List TaskRecord) → Stored l → count (fails m (λ t. q t && p t)) (ids_of l) ≡ 0
  unfolding filter count
  ids_of-pass [] h = refl
  ids_of-pass (t ∷ l) h =
      ground (arith, h t (Memᴰ.head refl), ids_of-pass l (λ u e. h u (Memᴰ.tail e)))

  tally-ids_of : (j : Str) (l : List TaskRecord) → tally j (ids_of l) ≤ count (λ t. str_eq t.id j) l
  unfolding filter count
  tally-ids_of j [] = omega arith
  tally-ids_of j (t ∷ l) = ground (arith, tally-ids_of j l)

count-values-absent :
    (j : Str) (m : BTreeMap TaskRecord)
    → IsKeyed m
    → get m j ≡ none
    → count (λ t. str_eq t.id j) (values m) ≡ 0
unfolding count values get
count-values-absent j [] h e = refl
count-values-absent j ((k, t) ∷ m) h e =
    ground (arith, ap (λ k. str_eq k j) h.0, count-values-absent j m h.2)

count-values-once :
    (j : Str) (m : BTreeMap TaskRecord) → IsKeyed m → count (λ t. str_eq t.id j) (values m) ≤ 1
unfolding count values
count-values-once j [] h = omega arith
count-values-once j ((k, t) ∷ m) h = elim (Bool-cases (str_eq t.id j)) [
  | inl e ↦ ground (arith, count-values-absent t.id m h.2, ap (get m) h.0, str_eq_iff t.id j)
  | inr e ↦ ground (arith, count-values-once j m h.2)
]

abbrev arranged : List Str → List Str
arranged ids = reverse (sort_by str_lt ids)

count-arranged : (p : Str → Bool) (ids : List Str) → count p (arranged ids) ≡ count p ids
count-arranged p ids = count-reverse p (sort_by str_lt ids) ∙ count-sort_by p str_lt ids

length-arranged : (ids : List Str) → length (arranged ids) ≡ length ids
length-arranged ids =
    omega (arith, count-true (arranged ids), count-true ids, count-arranged (λ id. true) ids)

-- `select` lists the tasks of the service that pass the test.
pub select-Lists :
    (state : ClusterState) (service : ServiceRecord) (p : TaskRecord → Bool)
    → IsKeyed state.tasks
    → Lists state.tasks
        (λ t. str_eq t.service_id service.id && p t)
        (select state p (service_task_ids state service))
unfolding select service_task_ids
select-Lists state service p h =
    let m = state.tasks in
    let q = λ (t : TaskRecord). str_eq t.service_id service.id in
    let stored = IsKeyed-get m h in
    let ids = ids_of m p q (values m) in
    record {
      once = λ j. omega (
        arith,
        count-arranged (λ i. str_eq i j) ids,
        tally-ids_of m p q j (values m),
        count-values-once j m h,
      );
      pass = count-arranged (fails m (λ t. q t && p t)) ids ∙ ids_of-pass m p q (values m) stored;
      complete = length-arranged ids ∙ length-ids_of m p q (values m) stored;
    }

-- The ready tasks among the listed ones are those that also pass the readiness test.
pub healthy_count-select :
    (state : ClusterState) (service : ServiceRecord) (p : TaskRecord → Bool)
    → IsKeyed state.tasks
    → healthy_count state (select state p (service_task_ids state service))
      ≡ count (λ t. (str_eq t.service_id service.id && p t) && is_ready t) (values state.tasks)
unfolding healthy_count select service_task_ids
healthy_count-select state service p h =
    let m = state.tasks in
    let q = λ (t : TaskRecord). str_eq t.service_id service.id in
    count-arranged (λ id. is_some_and (get m id) is_ready) (ids_of m p q (values m))
    ∙ ready-ids_of m p q (values m) (IsKeyed-get m h)
