-- ===== src/Operations/Outcome.antt =====
-- controller/service_operations.rs: what a new submission comes to.
use swarmlite.Base.{
  ℕ, ◌≡◌, ◌⊎◌, refl, false, List, ◌&&◌, ◌||◌, not, ◌==◌, any, filter, length, is_some, Bool-cases,
  Option-cases, inl, inr, Str, str_eq,
}
use swarmlite.Base.Map.{insert, values}
use swarmlite.Cluster.{RestartTarget, ServiceRecord, is_running, ClusterState}
use swarmlite.Operations.Submit.{
  Answer, Refusal, Submission, submit_new, is_deploy, is_busy, is_too_soon, restart_targets,
  preparation, new_operation, new_view,
}

pub Answer-cases :
    {A : Type 0} (a : Answer A)
    → ((e : Refusal) × (a ≡ Answer.err e)) ⊎ ((x : A) × (a ≡ Answer.ok x))
Answer-cases (Answer.err e) = inl (e, refl)
Answer-cases (Answer.ok x) = inr (x, refl)

-- A refusal, or a new operation on a stack that is idle.
abbrev pub Outcome : ClusterState → Submission → ServiceRecord → Type 0
Outcome state request service =
    ((e : Refusal) × (submit_new state request service ≡ Answer.err e))
    ⊎ ((tasks : List RestartTarget) × (nodes : List Str) × (revision : ℕ) × (is_busy state
            service.stack
          ≡ false)
        × (submit_new state request service
            ≡ Answer.ok (
              record state {
                service_operations =
                    insert request.new_id (new_operation request service tasks nodes revision)
                      state.service_operations;
              },
              new_view request service tasks,
            )))

pub submit_new-cases :
    (state : ClusterState) (request : Submission) (service : ServiceRecord)
    → Outcome state request service
unfolding submit_new
submit_new-cases state request service =
    elim (Bool-cases (is_deploy request.principal && not (str_eq service.id request.target))) [
      | inl d ↦ rw (submit_new, d) (inl (_, refl))
      | inr d ↦ elim (Bool-cases (is_some service.spec.job || service.spec.replicas == 0)) [
        | inl j ↦ rw (submit_new, d, j) (inl (_, refl))
        | inr j ↦ elim (Bool-cases (is_busy state service.stack)) [
          | inl b ↦ rw (submit_new, d, j, b) (inl (_, refl))
          | inr b ↦
              elim (Bool-cases (any (is_too_soon request) (values state.service_operations))) [
                | inl t ↦ rw (submit_new, d, j, b, t) (inl (_, refl))
                | inr t ↦
                    elim (Option-cases (
                      restart_targets state service request.live (
                        filter
                          (λ task. str_eq task.service_id service.id && is_running task.desired)
                          (values state.tasks)))) [
                            | inl r ↦ rw (submit_new, d, j, b, t, r) (inl (_, refl))
                            | inr (tasks, r) ↦
                                elim (Bool-cases (length tasks == service.spec.replicas)) [
                                  | inr l ↦ rw (submit_new, d, j, b, t, r, l) (inl (_, refl))
                                  | inl l ↦
                                      elim (Answer-cases (preparation state request service)) [
                                        | inl (e, p) ↦
                                            rw (submit_new, d, j, b, t, r, l, p) (inl (e, refl))
                                        | inr (prepared, p) ↦
                                            rw (submit_new, d, j, b, t, r, l, p)
                                              (inr (tasks, prepared.0, prepared.1, refl, refl))
                                      ]
                                ]
                          ]
              ]
        ]
      ]
    ]
