-- ===== src/Operations/Restart.antt =====
-- controller/service_operations.rs: the targets of a rolling restart.
use swarmlite.Base.{
  ℕ, ◌≡◌, ◌⊎◌, refl, sym, ap, subst, ◌∙◌, Bool, true, false, List, [], ◌∷◌, ◌++◌, ◌&&◌, ◌||◌, inl,
  inr, leb, all, is_some_and, Bool-cases, Str,
}
use swarmlite.Cluster.{ServiceOperationStatus, RestartTarget, ServiceOperationRecord, ClusterState}
use swarmlite.Operations.{
  Step, fail, succeed, is_back, is_unavailable, advanced, behind, step_target, step_targets,
  after_step, is_completed, finish, advance_restart,
}

-- Of the old targets the first that is not complete has moved, and it is complete only if it was
-- restarted and its task is back.
pub record IsOneMoved (state : ClusterState) (old new : List RestartTarget) : Type 0 where
  pub before : List RestartTarget
  pub target : RestartTarget
  pub after : List RestartTarget
  pub moved : RestartTarget
  pub was : old ≡ before ++ (target ∷ after)
  pub is : new ≡ before ++ (moved ∷ after)
  pub done_before : all is_completed before ≡ true
  pub was_open : target.completed ≡ false
  pub same_task : moved.task_id ≡ target.task_id
  pub same_container : moved.container_id ≡ target.container_id
  pub completes : moved.completed ≡ (target.restarted && is_back state target)

-- What a step does to the targets.
abbrev targets_after : Step → List RestartTarget → List RestartTarget
targets_after Step.nothing_left old = old
targets_after (Step.failed e) old = old
targets_after (Step.moved ts phase) old = ts

after_step-tasks :
    (operation : ServiceOperationRecord) (now : ℕ) (step : Step)
    → (after_step operation now step).tasks ≡ targets_after step operation.tasks
unfolding after_step fail
after_step-tasks operation now Step.nothing_left = refl
after_step-tasks operation now (Step.failed e) = refl
after_step-tasks operation now (Step.moved ts phase) = refl

finish-tasks :
    (operation : ServiceOperationRecord) (now : ℕ) → (finish operation now).tasks ≡ operation.tasks
unfolding finish succeed
finish-tasks operation now = elim (Bool-cases (all is_completed operation.tasks)) [
  | inl e ↦ rw (finish, e) refl
  | inr e ↦ rw (finish, e) refl
]

Outcome : ClusterState → List RestartTarget → Step → Type 0
Outcome state old step =
    (targets_after step old ≡ old) ⊎ IsOneMoved state old (targets_after step old)

behind-Outcome :
    (state : ClusterState) (t : RestartTarget) (ts : List RestartTarget) (step : Step)
    → t.completed ≡ true
    → Outcome state ts step
    → Outcome state (t ∷ ts) (behind t step)
unfolding Outcome all is_completed
behind-Outcome state t ts Step.nothing_left done h = inl refl
behind-Outcome state t ts (Step.failed e) done h = inl refl
behind-Outcome state t ts (Step.moved us phase) done (inl same) = inl (ap (λ vs. t ∷ vs) same)
behind-Outcome state t ts (Step.moved us phase) done (inr one) = inr (record {
  before = t ∷ one.before;
  target = one.target;
  after = one.after;
  moved = one.moved;
  was = ap (λ vs. t ∷ vs) one.was;
  is = ap (λ vs. t ∷ vs) one.is;
  done_before = rw done one.done_before;
  was_open = one.was_open;
  same_task = one.same_task;
  same_container = one.same_container;
  completes = one.completes;
})

module _ (state : ClusterState) (live : List Str) (service : Str) (now : ℕ) where
  step_target-Outcome :
      (t : RestartTarget) (ts : List RestartTarget)
      → t.completed ≡ false
      → Outcome state (t ∷ ts) (step_target state live service now t ts)
  unfolding step_target Outcome all advanced
  step_target-Outcome t ts still = elim (Bool-cases (is_unavailable state live t)) [
    | inl e ↦ rw (step_target, e) (inl refl)
    | inr e ↦ elim (Bool-cases (is_some_and t.deadline_unix_ms (λ d. leb d now))) [
      | inl late ↦ rw (step_target, e, late) (inl refl)
      | inr fine ↦
          rw (step_target, e, fine)
            (inr (record {
              before = [];
              target = t;
              after = ts;
              moved = advanced state service now t;
              was = refl;
              is = refl;
              done_before = refl;
              was_open = still;
              same_task = refl;
              same_container = refl;
              completes = ap (λ b. b || t.restarted && is_back state t) still;
            }))
    ]
  ]

  step_targets-Outcome :
      (ts : List RestartTarget) → Outcome state ts (step_targets state live service now ts)
  unfolding step_targets Outcome
  step_targets-Outcome [] = inl refl
  step_targets-Outcome (t ∷ ts) = elim (Bool-cases t.completed) [
    | inl e ↦
        simp (step_targets, e)
          (behind-Outcome state t ts (step_targets state live service now ts) e
            (step_targets-Outcome ts))
    | inr e ↦ simp (step_targets, e) (step_target-Outcome t ts e)
  ]

-- The status `Succeeded`.
unfoldable pub is_succeeded : ServiceOperationStatus → Bool
is_succeeded ServiceOperationStatus.succeeded = true
is_succeeded _ = false

after_step-open :
    (operation : ServiceOperationRecord) (now : ℕ) (step : Step)
    → is_succeeded operation.view.status ≡ false
    → is_succeeded (after_step operation now step).view.status ≡ false
unfolding after_step fail is_succeeded
after_step-open operation now Step.nothing_left h = h
after_step-open operation now (Step.failed e) h = refl
after_step-open operation now (Step.moved ts phase) h = h

finish-status :
    (operation : ServiceOperationRecord) (now : ℕ)
    → is_succeeded operation.view.status ≡ false
    → is_succeeded (finish operation now).view.status ≡ all is_completed operation.tasks
unfolding succeed is_succeeded finish
finish-status operation now h = elim (Bool-cases (all is_completed operation.tasks)) [
  | inl e ↦ rw (finish, e) refl
  | inr e ↦ rw (finish, e) h
]

-- One advance of a rolling restart, in any state: either the targets stay as they were, or exactly
-- the first target that was not complete has changed, of the same task and container, and it has
-- become complete exactly if it had been restarted and its task runs that container and image and is
-- healthy. The operation has then succeeded exactly if every target is complete.
pub advance_restart-one :
    (state : ClusterState) (live : List Str) (operation : ServiceOperationRecord) (now : ℕ)
    → let next = advance_restart state live operation now in
      ((next.tasks ≡ operation.tasks) ⊎ IsOneMoved state operation.tasks next.tasks)
      × (is_succeeded next.view.status ≡ all is_completed next.tasks)
unfolding advance_restart Outcome is_succeeded
advance_restart-one state live operation now =
    let running : ServiceOperationRecord = record operation {
      view = record operation.view { status = ServiceOperationStatus.running };
    } in
    let step = step_targets state live operation.view.service now operation.tasks in
    let stepped = after_step running now step in
    let tasks : (finish stepped now).tasks ≡ targets_after step operation.tasks =
      finish-tasks stepped now ∙ after_step-tasks running now step in
    (
      subst (λ ts. (ts ≡ operation.tasks) ⊎ IsOneMoved state operation.tasks ts) (sym tasks)
          (step_targets-Outcome state live operation.view.service now operation.tasks),
      finish-status stepped now (after_step-open running now step refl)
          ∙ ap (all is_completed) (sym (finish-tasks stepped now)),
    )
