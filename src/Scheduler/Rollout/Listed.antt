-- ===== src/Scheduler/Rollout/Listed.antt =====
-- Vectors of task ids that list exactly the tasks which pass a test, and how retiring the last of
-- them changes the count.

use swarmlite.Base.{
  ℕ, suc, ◌≤◌, min, ◌≡◌, refl, ap, ◌∙◌, Bool, true, false, none, some, List, [], ◌∷◌, Memᴰ, not,
  arith, if◌then◌else◌, ltb, length, count, Bool-cases, Option-cases, inl, inr, is_some_and,
  cases_cons, Str, str_eq, str_eq_iff, str_eq_refl,
}
use swarmlite.Base.Map.{BTreeMap, get, update, values, get-update}
use swarmlite.Base.Tally.{count-le, count-update_pred}
use swarmlite.Cluster.{is_running, TaskRecord, ServiceRecord, ClusterState}
use swarmlite.Scheduler.Ports.{is_service_http_routed}
use swarmlite.Scheduler.Rollout.Retire.{retired, retire_at, retire_task, retire_surplus}

-- Every task stands under its own id, and no id stands twice.
abbrev pub IsKeyed : BTreeMap TaskRecord → Type 0
IsKeyed [] = Unit
IsKeyed ((k, t) ∷ m) = (k ≡ t.id) × (get m k ≡ none) × IsKeyed m

pub IsKeyed-get :
    (m : BTreeMap TaskRecord)
    → IsKeyed m
    → (t : TaskRecord) → Memᴰ t (values m)
    → get m t.id ≡ some t
unfolding get values
IsKeyed-get [] h t e = elim e [ ]
IsKeyed-get ((k, u) ∷ m) h t e = elim (cases_cons e) [
  | inl p ↦ ground (arith, ap (λ (t : TaskRecord). t.id) p, str_eq_iff k t.id)
  | inr q ↦ ground (arith, IsKeyed-get m h.2 t q, str_eq_iff k t.id)
]

-- A test that only running tasks pass, which reads nothing else that retiring changes.
pub record ReadsRunning (p : TaskRecord → Bool) : Type 0 where
  pub gone : (routed : Bool) (t : TaskRecord) → p (retired routed t) ≡ false
  pub running : (t : TaskRecord) → p t ≡ true → is_running t.desired ≡ true

abbrev pub tally : Str → List Str → ℕ
tally j = count (λ i. str_eq i j)

abbrev pub fails : BTreeMap TaskRecord → (TaskRecord → Bool) → Str → Bool
fails m p id = not (is_some_and (get m id) p)

-- The ids of exactly the tasks that pass the test, each once.
pub record Lists (m : BTreeMap TaskRecord) (p : TaskRecord → Bool) (ids : List Str) : Type 0 where
  pub once : (j : Str) → tally j ids ≤ 1
  pub pass : count (fails m p) ids ≡ 0
  pub complete : length ids ≡ count p (values m)

-- What `retire_task` does to a task that is there and runs.
pub retire_task-tasks :
    (state : ClusterState) (id : Str) (service : ServiceRecord) {p : TaskRecord → Bool}
    → ReadsRunning p
    → is_some_and (get state.tasks id) p ≡ true
    → retire_task state id service ≡ (retire_at state id service, true)
unfolding retire_task
retire_task-tasks state id service r h = elim (Option-cases (get state.tasks id)) [
  | inl e ↦ cc
  | inr (t, e) ↦ rw (e, retire_task) (rw (r.running t (ground arith)) refl)
]

str_eq-count : (id : Str) → ◌≡◌ {A = ℕ} (if str_eq id id then 1 else 0) 1
str_eq-count id = ground (arith, str_eq_refl id)

pub Lists-step :
    (m : BTreeMap TaskRecord) (p : TaskRecord → Bool) (routed : Bool) (id : Str) (ids : List Str)
    → ReadsRunning p
    → Lists m p (id ∷ ids)
    → Lists (update id (retired routed) m) p ids
unfolding count
Lists-step m p routed id ids r l = record {
  once = λ j. ground (arith, l.once j);
  pass = omega (
    arith,
    count-le (fails (update id (retired routed) m) p) (fails m p) (λ i. str_eq i id) ids
        (λ a h.
          ground (arith, get-update id a (retired routed) m, str_eq_iff id a, str_eq_iff a id)),
    l.pass,
    l.once id,
    str_eq-count id,
  );
  complete = omega (
    arith,
    l.complete,
    count-update_pred p id (retired routed) m (r.gone routed) (ground (arith, l.pass)),
  );
}

pub Lists-head :
    {m : BTreeMap TaskRecord} {p : TaskRecord → Bool} {id : Str} {ids : List Str}
    → Lists m p (id ∷ ids)
    → is_some_and (get m id) p ≡ true
unfolding count
Lists-head l = ground (arith, l.pass)

-- The vector that is left lists what still passes, and is as long as the limit allows.
pub retire_surplus-Lists :
    (limit : ℕ) (state : ClusterState) (service : ServiceRecord) (p : TaskRecord → Bool)
    (ids : List Str)
    → ReadsRunning p
    → Lists state.tasks p ids
    → Lists
        (retire_surplus limit state service ids).state.tasks
        p
        (retire_surplus limit state service ids).left
      × (length (retire_surplus limit state service ids).left ≡ min limit (length ids))
unfolding retire_surplus
retire_surplus-Lists limit state service p [] r l = (l, omega arith)
retire_surplus-Lists limit state service p (id ∷ ids) r l =
    elim (Bool-cases (ltb limit (suc (length ids)))) [
      | inr k ↦ rw k (l, ground arith)
      | inl k ↦ rw k (
          rw (retire_task-tasks state id service r (Lists-head l)) (
            let rest =
              retire_surplus-Lists limit (retire_at state id service) service p ids r
                (Lists-step state.tasks p (is_service_http_routed state service) id ids r l) in
            (rest.0, rest.1 ∙ ground arith)))
    ]
