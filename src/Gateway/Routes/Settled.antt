-- ===== src/Gateway/Routes/Settled.antt =====
-- gateway.rs: the routes of one stack after they are replaced, and of all stacks after a refresh.
use swarmlite.Base.{
  ℕ, ◌≡◌, refl, sym, ap, subst, ◌∙◌, inl, inr, Bool, true, false, Option, none, some, List, [], ◌∷◌,
  ◌&&◌, ◌||◌, arith, if◌then◌else◌, any, filter, is_some, is_some_and, Bool-cases, Option-cases,
  Str, str_eq, str_eq_iff, str_eq_refl,
}
use swarmlite.Base.Map.{BTreeMap, get, keys, values, get-insert, get-remove, any-keys}
use swarmlite.Cluster.{
  RecoveredStackGateway, StackRecord, TaskRecord, ServicePortKey, has_routes, ClusterState,
  same_fragment, same_fragment_iff,
}
use swarmlite.Gateway.Routes.{
  addresses_of, task_address, takes_requests, insert_upstream, service_id_of, insert_address,
  upstream_keys, addresses, upstreams_on, stack_fragment, replace_stack_route,
  all_running_tasks_reported, refresh_ready_stack_route, refresh_routes, refresh_ready_stack_routes,
}

-- The state with other routes.
abbrev pub with_routes : ClusterState → BTreeMap RecoveredStackGateway → ClusterState
with_routes state routes = record state { gateway_routes = routes }

abbrev routes : ClusterState × Bool → BTreeMap RecoveredStackGateway
routes r = r.0.gateway_routes

abbrev fragment_of : StackRecord → List (ServicePortKey × List Str) → Option RecoveredStackGateway
fragment_of stack upstreams = some (record { gateway = stack.gateway; upstreams = upstreams })

module _ (state : ClusterState) (m : BTreeMap RecoveredStackGateway) where
  addresses_of-with_routes :
      (port : ℕ) (tasks : List TaskRecord)
      → addresses_of (with_routes state m) port tasks ≡ addresses_of state port tasks
  unfolding addresses_of task_address
  addresses_of-with_routes port [] = refl
  addresses_of-with_routes port (t ∷ ts) = elim (Option-cases (task_address state port t)) [
    | inl e ↦ rw (addresses_of, e) (addresses_of-with_routes port ts)
    | inr (a, e) ↦ rw (addresses_of, e) (ap (insert_address a) (addresses_of-with_routes port ts))
  ]

  upstreams_on-with_routes :
      (name : Str) (ks : List ServicePortKey) (found : List (ServicePortKey × List Str))
      → upstreams_on (with_routes state m) name ks found ≡ upstreams_on state name ks found
  unfolding upstreams_on addresses takes_requests
  upstreams_on-with_routes name [] found = refl
  upstreams_on-with_routes name (k ∷ ks) found =
      ap (λ xs. upstreams_on (with_routes state m) name ks (insert_upstream k xs found))
        (addresses_of-with_routes k.target_port
          (filter (takes_requests state (service_id_of name k.service)) (values state.tasks)))
      ∙ upstreams_on-with_routes name ks (insert_upstream k (addresses state name k) found)

  -- A fragment does not depend on the routes.
  fragment-with_routes :
      (name : Str) → stack_fragment (with_routes state m) name ≡ stack_fragment state name
  unfolding stack_fragment
  fragment-with_routes name = elim (Option-cases (get state.stacks name)) [
    | inl e ↦ rw (stack_fragment, e) refl
    | inr (stack, e) ↦ elim (Bool-cases (has_routes stack.gateway)) [
      | inl k ↦
          rw (stack_fragment, e, k)
            (ap (fragment_of stack)
              (upstreams_on-with_routes name (upstream_keys stack.gateway) []))
      | inr k ↦ rw (stack_fragment, e, k) refl
    ]
  ]

-- Only the routes change.
replace-with_routes :
    (state : ClusterState) (name : Str)
    → (replace_stack_route state name).0
      ≡ with_routes state (routes (replace_stack_route state name))
unfolding replace_stack_route
replace-with_routes state name = elim (Option-cases (stack_fragment state name)) [
  | inl e ↦ rw (replace_stack_route, e) refl
  | inr (next, e) ↦
      elim (Bool-cases
        (is_some_and (get state.gateway_routes name) (λ old. same_fragment old next))) [
          | inl k ↦ rw (replace_stack_route, e, k) refl
          | inr k ↦ rw (replace_stack_route, e, k) refl
        ]
]

-- An equal fragment is the fragment that is there.
kept :
    (old : Option RecoveredStackGateway) (next : RecoveredStackGateway)
    → is_some_and old (λ o. same_fragment o next) ≡ true
    → old ≡ some next
kept none next k = cc
kept (some o) next k = ap some ((same_fragment_iff o next).0 k)

unchanged :
    (state : ClusterState) (stack_name name : Str) (next : RecoveredStackGateway)
    → is_some_and (get state.gateway_routes stack_name) (λ old. same_fragment old next) ≡ true
    → get state.gateway_routes name
      ≡ (if str_eq stack_name name then some next else get state.gateway_routes name)
unchanged state stack_name name next k = elim (Bool-cases (str_eq stack_name name)) [
  | inl e ↦ rw e (
      ap (get state.gateway_routes) (sym ((str_eq_iff stack_name name).0 e))
      ∙ kept (get state.gateway_routes stack_name) next k)
  | inr e ↦ rw e refl
]

-- Replacing the route of a stack puts the fragment of the stack's routes and tasks under its name,
-- or nothing if the stack has no routes, and leaves the routes of all other stacks.
pub replace_stack_route_lem :
    (state : ClusterState) (stack_name name : Str)
    → get (replace_stack_route state stack_name).0.gateway_routes name ≡ (
        if str_eq stack_name name
        then stack_fragment state stack_name
        else get state.gateway_routes name)
unfolding replace_stack_route
replace_stack_route_lem state stack_name name =
    elim (Option-cases (stack_fragment state stack_name)) [
      | inl e ↦ rw (replace_stack_route, e) (get-remove stack_name name state.gateway_routes)
      | inr (next, e) ↦
          elim (Bool-cases
            (is_some_and (get state.gateway_routes stack_name) (λ old. same_fragment old next))) [
              | inl k ↦ rw (replace_stack_route, e, k) (unchanged state stack_name name next k)
              | inr k ↦
                  rw (replace_stack_route, e, k)
                    (get-insert stack_name name next state.gateway_routes)
            ]
    ]

-- The stack has routes to look at, and every running task of its services has a known node.
unfoldable pub is_reported : ClusterState → (stack_name : Str) → Bool
is_reported state stack_name =
    is_some_and (get state.stacks stack_name)
      (λ stack. all_running_tasks_reported state stack_name stack.gateway)

refresh-with_routes :
    (state : ClusterState) (name : Str)
    → (refresh_ready_stack_route state name).0
      ≡ with_routes state (routes (refresh_ready_stack_route state name))
unfolding refresh_ready_stack_route
refresh-with_routes state name = elim (Option-cases (get state.stacks name)) [
  | inl e ↦ rw (refresh_ready_stack_route, e) refl
  | inr (stack, e) ↦ elim (Bool-cases (all_running_tasks_reported state name stack.gateway)) [
    | inl k ↦ rw (refresh_ready_stack_route, e, k) (replace-with_routes state name)
    | inr k ↦ rw (refresh_ready_stack_route, e, k) refl
  ]
]

-- A refresh of one stack replaces its route, or does nothing.
refresh-replace :
    (state : ClusterState) (name : Str)
    → refresh_ready_stack_route state name
      ≡ (if is_reported state name then replace_stack_route state name else (state, false))
unfolding is_reported refresh_ready_stack_route
refresh-replace state name = elim (Option-cases (get state.stacks name)) [
  | inl e ↦ rw (refresh_ready_stack_route, is_reported, e) refl
  | inr (stack, e) ↦ rw (refresh_ready_stack_route, is_reported, e) refl
]

refresh_one :
    (state : ClusterState) (name j : Str)
    → get (routes (refresh_ready_stack_route state name)) j ≡ (
        if str_eq name j && is_reported state j
        then stack_fragment state j
        else get state.gateway_routes j)
refresh_one state name j = rw (refresh-replace state name) (elim (Bool-cases (str_eq name j)) [
  | inl e ↦
      let same : name ≡ j = (str_eq_iff name j).0 e in
      subst
        (λ n.
          get
            (if is_reported state n
              then replace_stack_route state n
              else (state, false)).0.gateway_routes
            j
          ≡ (if str_eq n j && is_reported state j
              then stack_fragment state j
              else get state.gateway_routes j))
        (sym same)
        (elim (Bool-cases (is_reported state j)) [
          | inl k ↦
              rw (k, str_eq_refl j) (replace_stack_route_lem state j j ∙ rw (str_eq_refl j) refl)
          | inr k ↦ rw (k, str_eq_refl j) refl
        ])
  | inr e ↦ elim (Bool-cases (is_reported state name)) [
    | inl k ↦ rw (k, e) (replace_stack_route_lem state name j ∙ rw e refl)
    | inr k ↦ rw (k, e) refl
  ]
])

reported-with_routes :
    (state : ClusterState) (m : BTreeMap RecoveredStackGateway) (name : Str)
    → is_reported (with_routes state m) name ≡ is_reported state name
unfolding is_reported all_running_tasks_reported
reported-with_routes state m name = refl

merge {ℓ} :
    {A : Type ℓ} (e a r : Bool) (f g : A)
    → (if a && r then f else if e && r then f else g) ≡ (if (e || a) && r then f else g)
merge true true r f g = ground arith
merge true false r f g = refl
merge false true r f g = ground arith
merge false false r f g = refl

refresh_names :
    (state : ClusterState) (names : List Str) (j : Str) (m : BTreeMap RecoveredStackGateway)
    → get (routes (refresh_routes (with_routes state m) names)) j ≡ (
        if any (λ n. str_eq n j) names && is_reported state j
        then stack_fragment state j
        else get m j)
unfolding refresh_routes any is_reported all_running_tasks_reported
refresh_names state [] j m = refl
refresh_names state (n ∷ ns) j m =
    let before = with_routes state m in
    let next = routes (refresh_ready_stack_route before n) in
    let one : get next j
        ≡ (if str_eq n j && is_reported state j then stack_fragment state j else get m j) =
      refresh_one before n j
      ∙ ap (λ f. if str_eq n j && is_reported state j then f else get m j)
          (fragment-with_routes state m j) in
    ap (λ s. get (routes (refresh_routes s ns)) j) (refresh-with_routes before n)
    ∙ refresh_names state ns j next
    ∙ ap
        (λ o. if any (λ x. str_eq x j) ns && is_reported state j then stack_fragment state j else o)
        one
    ∙ merge (str_eq n j) (any (λ x. str_eq x j) ns) (is_reported state j) _ _

reported-known :
    (state : ClusterState) (j : Str)
    → (is_some (get state.stacks j) && is_reported state j) ≡ is_reported state j
unfolding is_reported
reported-known state j = elim (Option-cases (get state.stacks j)) [
  | inl e ↦ rw (is_reported, e) refl
  | inr (stack, e) ↦ rw (is_reported, e) refl
]

-- A refresh of all stacks: a stack all of whose running routed tasks have a known node gets the
-- fragment of its routes and tasks, or none if it has no routes; the route under every other name
-- stays as it was, whatever the order of the stacks.
pub refresh_ready_stack_routes_lem :
    (state : ClusterState) (name : Str)
    → get (refresh_ready_stack_routes state).0.gateway_routes name ≡ (
        if is_reported state name then stack_fragment state name else get state.gateway_routes name)
unfolding refresh_ready_stack_routes
refresh_ready_stack_routes_lem state name =
    refresh_names state (keys state.stacks) name state.gateway_routes
    ∙ ap (λ b. if b then stack_fragment state name else get state.gateway_routes name)
        (ap (λ b. b && is_reported state name) (any-keys state.stacks name)
          ∙ reported-known state name)
