-- ===== src/Deployment/Judged.antt =====
-- deployment.rs, `refresh_stack_deployments`: the loop over the stacks, and each stack by itself.
use mathlib.Core.Option
use mathlib.Core.Path.{fun_ext}
use swarmlite.Base.{
  ℕ, ◌≡◌, refl, sym, ap, ◌∙◌, Bool, true, false, none, some, List, [], ◌∷◌, ◌&&◌, not, arith, all,
  any, is_some, is_some_and, ◌⊎◌, &&-true, ||-false, not-true, Bool-cases, Option-cases, inl, inr,
  Str, str_eq, str_eq_iff, str_eq_refl,
}
use swarmlite.Base.Map.{get, keys, values, get-update, any-keys}
use swarmlite.Scheduler.Ports.{contains}
use swarmlite.Cluster.{is_active, is_terminal, StackDeploymentRecord, ClusterState}
use swarmlite.Deployment.Conditions.{set_deployment_condition, with_deployment, deployment_of}
use swarmlite.Deployment.Ready.{
  deployment_is_healthy, deployment_replacement_ready, stack_replaced, replicas_healthy, is_settled,
}
use swarmlite.Deployment.Moved.{deployment_of-with}
use swarmlite.Deployment.Moves.{has_succeeded}
use swarmlite.Deployment.Refresh.{
  becomes_stalled, is_overdue, next_deployment, refresh_stack_deployment, refresh_each,
  refresh_stack_deployments,
}

-- No name occurs twice, as in every map.
unfoldable pub is_distinct : List Str → Bool
is_distinct [] = true
is_distinct (n ∷ ns) = not (any (λ m. str_eq m n) ns) && is_distinct ns

healthy-with :
    (state : ClusterState) (n j : Str) (f : StackDeploymentRecord → StackDeploymentRecord)
    (generation : ℕ) (ready : Bool)
    → str_eq n j ≡ false
    → deployment_is_healthy (with_deployment state n f) j generation ready
      ≡ deployment_is_healthy state j generation ready
unfolding deployment_is_healthy deployment_replacement_ready stack_replaced replicas_healthy
    is_settled with_deployment
healthy-with state n j f generation ready e =
    ap
      (λ o.
        is_some_and o (λ stack.
          is_some_and stack.deployment (λ d. stack_replaced state stack d generation ready))
        && all (is_settled state j) (values state.tasks)
        && not (any (λ task. str_eq task.stack j) (values state.unclaimed_tasks)))
      (get-update n j _ state.stacks ∙ rw e refl)

module _ (now : ℕ) (gateway_ready : Bool) (unready_tcp : List Str) where
  -- The deployment is judged in the given state.
  unfoldable pub refreshed : ClusterState → Str → StackDeploymentRecord → StackDeploymentRecord
  refreshed state name deployment =
      elim (next_deployment now
        (deployment_is_healthy state name deployment.generation
          (gateway_ready && not (contains unready_tcp name)))
        deployment) [ none ↦ deployment | some next ↦ next ]

  abbrev refresh_one : ClusterState → Str → ClusterState
  refresh_one state name = (refresh_stack_deployment now gateway_ready unready_tcp state name).0

  refresh_one-own :
      (state : ClusterState) (name : Str)
      → deployment_of (refresh_one state name) name
        ≡ Option.map (refreshed state name) (deployment_of state name)
  unfolding refresh_stack_deployment refreshed
  refresh_one-own state name = elim (Option-cases (deployment_of state name)) [
    | inl e ↦ rw (refresh_one, refresh_stack_deployment, e) e
    | inr (d, e) ↦
        elim (Option-cases (
          next_deployment now
            (deployment_is_healthy state name d.generation
              (gateway_ready && not (contains unready_tcp name)))
            d)) [
              | inl k ↦ rw (refresh_one, refresh_stack_deployment, refreshed, e, k) e
              | inr (next, k) ↦
                  rw (refresh_one, refresh_stack_deployment, refreshed, e, k)
                    (deployment_of-with state name name (λ x. next) ∙ rw (str_eq_refl name, e) refl)
            ]
  ]

  -- A refresh of one stack changes at most its deployment.
  refresh_one-shape :
      (state : ClusterState) (n : Str)
      → (refresh_one state n ≡ state)
        ⊎ ((next : StackDeploymentRecord) × (refresh_one state n
              ≡ with_deployment state n (λ d. next)))
  unfolding refresh_stack_deployment
  refresh_one-shape state n = elim (Option-cases (deployment_of state n)) [
    | inl e ↦ inl (rw (refresh_one, refresh_stack_deployment, e) refl)
    | inr (d, e) ↦
        elim (Option-cases (
          next_deployment now
            (deployment_is_healthy state n d.generation
              (gateway_ready && not (contains unready_tcp n)))
            d)) [
              | inl k ↦ inl (rw (refresh_one, refresh_stack_deployment, e, k) refl)
              | inr (next, k) ↦ inr (next, rw (refresh_one, refresh_stack_deployment, e, k) refl)
            ]
  ]

  -- Another stack is judged as before, and its deployment stays.
  refresh_one-other :
      (state : ClusterState) (n j : Str)
      → str_eq n j ≡ false
      → deployment_of (refresh_one state n) j ≡ deployment_of state j
  refresh_one-other state n j e = elim (refresh_one-shape state n) [
    | inl p ↦ ap (λ t. deployment_of t j) p
    | inr (next, p) ↦
        ap (λ t. deployment_of t j) p ∙ deployment_of-with state n j (λ d. next) ∙ rw e refl
  ]

  refreshed-other :
      (state : ClusterState) (n j : Str) (d : StackDeploymentRecord)
      → str_eq n j ≡ false
      → refreshed (refresh_one state n) j d ≡ refreshed state j d
  unfolding refreshed
  refreshed-other state n j d e = elim (refresh_one-shape state n) [
    | inl p ↦ ap (λ t. refreshed t j d) p
    | inr (next, p) ↦
        ap (λ t. refreshed t j d) p
        ∙ ap (λ b. elim (next_deployment now b d) [ none ↦ d | some x ↦ x ])
            (healthy-with state n j (λ x. next) d.generation
              (gateway_ready && not (contains unready_tcp j)) e)
  ]

  refresh_each-other :
      (names : List Str) (state : ClusterState) (j : Str)
      → any (λ n. str_eq n j) names ≡ false
      → deployment_of (refresh_each now gateway_ready unready_tcp state names).0 j
        ≡ deployment_of state j
  unfolding refresh_each any
  refresh_each-other [] state j h = refl
  refresh_each-other (n ∷ ns) state j h =
      let parts = ||-false (str_eq n j) (any (λ m. str_eq m j) ns) h in
      refresh_each-other ns (refresh_one state n) j parts.1 ∙ refresh_one-other state n j parts.0

  refresh_each-own :
      (names : List Str) (state : ClusterState) (j : Str)
      → is_distinct names ≡ true
      → any (λ n. str_eq n j) names ≡ true
      → deployment_of (refresh_each now gateway_ready unready_tcp state names).0 j
        ≡ Option.map (refreshed state j) (deployment_of state j)
  unfolding refresh_each any is_distinct
  refresh_each-own [] state j once h = absurd (cc h)
  refresh_each-own (n ∷ ns) state j once h = elim (Bool-cases (str_eq n j)) [
    | inl e ↦
        let same : n ≡ j = (str_eq_iff n j).0 e in
        let once_only : any (λ m. str_eq m j) ns ≡ false =
          ap (λ k. any (λ m. str_eq m k) ns) (sym same)
          ∙ not-true _ (&&-true (not (any (λ m. str_eq m n) ns)) (is_distinct ns) once).0 in
        refresh_each-other ns (refresh_one state n) j once_only
        ∙ ap (λ k. deployment_of (refresh_one state k) j) same
        ∙ refresh_one-own state j
    | inr e ↦
        refresh_each-own ns (refresh_one state n) j (&&-true _ _ once).1 (rw e at h)
        ∙ ap (Option.map (refreshed (refresh_one state n) j)) (refresh_one-other state n j e)
        ∙ ap (λ f. Option.map f (deployment_of state j))
            (fun_ext (λ d. refreshed-other state n j d e))
  ]

unknown-none :
    (state : ClusterState) (name : Str)
    → any (λ n. str_eq n name) (keys state.stacks) ≡ false
    → deployment_of state name ≡ none
unfolding deployment_of
unknown-none state name h = elim (Option-cases (get state.stacks name)) [
  | inl e ↦ rw (deployment_of, e) refl
  | inr (stack, e) ↦ absurd (cc (ap is_some e, any-keys state.stacks name))
]

-- A refresh of all stacks judges each stack by itself: where no stack name occurs twice, the
-- deployment of every stack becomes what the state at the start makes of it, whatever becomes of the
-- other stacks before its turn.
pub refresh_stack_deployments_lem :
    (now : ℕ) (gateway_ready : Bool) (unready_tcp : List Str) (state : ClusterState) (name : Str)
    → is_distinct (keys state.stacks) ≡ true
    → deployment_of (refresh_stack_deployments now gateway_ready unready_tcp state).0 name
      ≡ Option.map (refreshed now gateway_ready unready_tcp state name) (deployment_of state name)
unfolding refresh_stack_deployments
refresh_stack_deployments_lem now gateway_ready unready_tcp state name once =
    elim (Bool-cases (any (λ n. str_eq n name) (keys state.stacks))) [
      | inl h ↦ refresh_each-own now gateway_ready unready_tcp (keys state.stacks) state name once h
      | inr h ↦
          let gone : deployment_of state name ≡ none = unknown-none state name h in
          refresh_each-other now gateway_ready unready_tcp (keys state.stacks) state name h
          ∙ gone
          ∙ ap (Option.map (refreshed now gateway_ready unready_tcp state name)) (sym gone)
    ]

pub unhealthy :
    (now : ℕ) (gateway_ready : Bool) (unready_tcp : List Str) (state : ClusterState) (name : Str)
    (d : StackDeploymentRecord)
    → is_active d.status ≡ true
    → deployment_is_healthy state name d.generation
        (gateway_ready && not (contains unready_tcp name))
      ≡ false
    → has_succeeded (refreshed now gateway_ready unready_tcp state name d).status ≡ false
unfolding refreshed next_deployment becomes_stalled set_deployment_condition
unhealthy now gateway_ready unready_tcp state name d active k =
    let open_still : is_terminal d.status ≡ false = not-true (is_terminal d.status) active in
    elim (Bool-cases (is_overdue now d)) [
      | inl o ↦ rw (refreshed, next_deployment, open_still, k, o) refl
      | inr o ↦ rw (refreshed, next_deployment, open_still, k, o) (ground arith)
    ]
