-- ===== src/Scheduler/Drain/Settled.antt =====
-- scheduler.rs, `finish_drains`: which tasks it stops, and running it twice.
use mathlib.Core.Option
use swarmlite.Base.{
  ℕ, ◌≡◌, ◌≤◌, ◌<◌, refl, ap, ap₂, ◌∙◌, Bool, true, false, ◌⊎◌, inl, inr, Bool-cases, Option-cases,
  [], ◌∷◌, arith, any, any_intro, leb, some, none, Str,
}
use swarmlite.Base.Map.{BTreeMap, get, keys, map_values, values, get-mem, get-map_values}
use swarmlite.Cluster.{DesiredTaskState, is_draining, TaskRecord, ClusterState}
use swarmlite.Scheduler.Drain.{drain_is_over, finish_drain, finish_drains}

-- A finished drain is not over a second time.
drain_is_over-finish : (now : ℕ) (t : TaskRecord) → drain_is_over now (finish_drain now t) ≡ false
unfolding finish_drain
drain_is_over-finish now t = ground arith

finish_drain-skip :
    (now : ℕ) (t : TaskRecord) → drain_is_over now t ≡ false → finish_drain now t ≡ t
unfolding finish_drain
finish_drain-skip now t h = ground arith

any-map_values :
    (now : ℕ) (m : BTreeMap TaskRecord)
    → any (drain_is_over now) (values (map_values (finish_drain now) m)) ≡ false
unfolding any values map_values
any-map_values now [] = refl
any-map_values now ((k, t) ∷ m) = ground (arith, drain_is_over-finish now t, any-map_values now m)

map_values-skip :
    (now : ℕ) (m : BTreeMap TaskRecord)
    → any (drain_is_over now) (values m) ≡ false
    → map_values (finish_drain now) m ≡ m
unfolding any values map_values
map_values-skip now [] h = refl
map_values-skip now ((k, t) ∷ m) h = ground (arith, finish_drain-skip now t, map_values-skip now m)

-- What becomes of a task: a draining task with a deadline that is reached is stopped and nothing else
-- of it changes, and every other task stays.
abbrev pub IsFinished : (now : ℕ) (reported : Bool) (task next : TaskRecord) → Type 0
IsFinished now reported task next =
    ((is_draining task.desired ≡ true)
      × ((deadline : ℕ) × (task.drain_until_unix_ms ≡ some deadline) × (deadline ≤ now))
      × (next ≡ record task { desired = DesiredTaskState.stopped })
      × (reported ≡ true))
    ⊎ (((is_draining task.desired ≡ false)
          ⊎ ((task.drain_until_unix_ms ≡ none)
              ⊎ ((deadline : ℕ) × (task.drain_until_unix_ms ≡ some deadline) × (now < deadline))))
        × (next ≡ task))

finish_drain-IsFinished :
    (state : ClusterState) (now : ℕ) (key : Str) (task : TaskRecord)
    → get state.tasks key ≡ some task
    → IsFinished now (any (drain_is_over now) (values state.tasks)) task (finish_drain now task)
unfolding finish_drain drain_is_over
finish_drain-IsFinished state now key task found = elim (Bool-cases (is_draining task.desired)) [
  | inr d ↦ inr (inl d, rw (finish_drain, drain_is_over, d) refl)
  | inl d ↦ elim (Option-cases task.drain_until_unix_ms) [
    | inl n ↦ inr (inr (inl n), rw (finish_drain, drain_is_over, d, n) refl)
    | inr (deadline, e) ↦ elim (Bool-cases (leb deadline now)) [
      | inr l ↦ inr (
        inr (inr (deadline, e, ground (arith, l))),
        rw (finish_drain, drain_is_over, d, e, l) refl,
      )
      | inl l ↦ inl (
        d,
        (deadline, e, ground (arith, l)),
        rw (finish_drain, drain_is_over, d, e, l) refl,
        any_intro (drain_is_over now) (values state.tasks) (get-mem state.tasks key found)
            (rw (drain_is_over, d, e, l) refl),
      )
    ]
  ]
]

keys-finish : (now : ℕ) (m : BTreeMap TaskRecord) → keys (map_values (finish_drain now) m) ≡ keys m
unfolding keys map_values
keys-finish now [] = refl
keys-finish now ((k, t) ∷ m) = ap (λ ks. k ∷ ks) (keys-finish now m)

-- A drain ends at its deadline, not before: a draining task whose deadline is not after the time is
-- stopped, which is reported, and every other task stays as it was. No task goes or comes and nothing
-- else of the state changes; where no change is reported there is none, and a second run at the same
-- time changes nothing and reports so.
pub finish_drains-IsFinished :
    (state : ClusterState) (now : ℕ) (key : Str) (task : TaskRecord)
    → get state.tasks key ≡ some task
    → let done = finish_drains state now in
      ((next : TaskRecord) × (get done.0.tasks key ≡ some next) × IsFinished now done.1 task next)
      × (keys done.0.tasks ≡ keys state.tasks)
      × (done.0 ≡ record state { tasks = done.0.tasks })
      × ((done.1 ≡ true) ⊎ (done.0 ≡ state))
      × (finish_drains done.0 now ≡ (done.0, false))
unfolding finish_drains
finish_drains-IsFinished state now key task found =
    let done = map_values (finish_drain now) state.tasks in
    let over = any-map_values now state.tasks in
    (
      (
        finish_drain now task,
        get-map_values (finish_drain now) state.tasks key
            ∙ ap (Option.map (finish_drain now)) found,
        finish_drain-IsFinished state now key task found,
      ),
      keys-finish now state.tasks,
      refl,
      elim (Bool-cases (any (drain_is_over now) (values state.tasks))) [
        | inl h ↦ inl h
        | inr h ↦ inr (ap (λ ts. record state { tasks = ts }) (map_values-skip now state.tasks h))
      ],
      ap₂ (λ ts b. (record state { tasks = ts }, b)) (map_values-skip now done over) over,
    )
