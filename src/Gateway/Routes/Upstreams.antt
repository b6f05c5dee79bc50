-- ===== src/Gateway/Routes/Upstreams.antt =====
-- gateway.rs, `stack_fragment`: the addresses of a stack's upstreams.
use mathlib.Core.Option
use swarmlite.Base.{
  ◌++◌, &&-true, not-true, ℕ, ◌≡◌, ◌↔◌, refl, sym, ap, subst, ◌∙◌, inl, inr, Bool, true, false,
  some, List, [], ◌∷◌, arith, if◌then◌else◌, any, filter-mem, mem-filter, cases_cons, Memᴰ,
  Bool-cases, Option-cases, Str, str_eq, str_eq_iff, str_lt,
}
use swarmlite.Base.Map.{get, values}
use swarmlite.Cluster.{
  ServicePortKey, RecoveredStackGateway, TaskRecord, has_routes, ClusterState, DesiredTaskState,
  ObservedTaskState, is_running, is_healthy,
}
use swarmlite.Gateway.Routes.{
  same_key, restarts_next, insert_upstream, insert_address, upstream_keys, takes_requests,
  task_address, addresses_of, service_id_of, addresses, upstreams_on, stack_fragment,
}

-- The addresses under a key.
abbrev pub upstream : ServicePortKey → List (ServicePortKey × List Str) → List Str
upstream key [] = []
upstream key ((k, found) ∷ rest) = if same_key k key then found else upstream key rest

mem-insert_address : (a b : Str) (bs : List Str) → Memᴰ a (b ∷ bs) → Memᴰ a (insert_address b bs)
unfolding insert_address
mem-insert_address a b [] m = m
mem-insert_address a b (c ∷ cs) m = elim (Bool-cases (str_eq c b)) [
  | inl e ↦
      rw e (elim (cases_cons m) [ inl h ↦ Memᴰ.head (h ∙ sym ((str_eq_iff c b).0 e)) | inr t ↦ t ])
  | inr e ↦ elim (Bool-cases (str_lt b c)) [
    | inl k ↦ rw (e, k) m
    | inr k ↦
        rw (e, k)
          (elim (cases_cons m) [
            | inl h ↦ Memᴰ.tail (mem-insert_address a b cs (Memᴰ.head h))
            | inr t ↦ elim (cases_cons t) [
              | inl h ↦ Memᴰ.head h
              | inr u ↦ Memᴰ.tail (mem-insert_address a b cs (Memᴰ.tail u))
            ]
          ])
  ]
]

insert_address-mem : (a b : Str) (bs : List Str) → Memᴰ a (insert_address b bs) → Memᴰ a (b ∷ bs)
unfolding insert_address
insert_address-mem a b [] m = m
insert_address-mem a b (c ∷ cs) m = elim (Bool-cases (str_eq c b)) [
  | inl e ↦ Memᴰ.tail (rw e at m)
  | inr e ↦ elim (Bool-cases (str_lt b c)) [
    | inl k ↦ rw (e, k) at m
    | inr k ↦ elim (cases_cons (rw (e, k) at m)) [
      | inl h ↦ Memᴰ.tail (Memᴰ.head h)
      | inr t ↦ elim (cases_cons (insert_address-mem a b cs t)) [
        | inl h ↦ Memᴰ.head h
        | inr u ↦ Memᴰ.tail (Memᴰ.tail u)
      ]
    ]
  ]
]

-- A task of the list publishes the address.
pub record IsPublished (state : ClusterState) (port : ℕ) (tasks : List TaskRecord) (a : Str)
    : Type 0 where
  pub task : TaskRecord
  pub among : Memᴰ task tasks
  pub at : task_address state port task ≡ some a

the_deeper :
    {state : ClusterState} {port : ℕ} {tasks : List TaskRecord} {a : Str} (t : TaskRecord)
    → IsPublished state port tasks a
    → IsPublished state port (t ∷ tasks) a
the_deeper t p = record { task = p.task; among = Memᴰ.tail p.among; at = p.at }

addresses_of-IsPublished :
    (state : ClusterState) (port : ℕ) (tasks : List TaskRecord) (a : Str)
    → Memᴰ a (addresses_of state port tasks)
    → IsPublished state port tasks a
unfolding addresses_of
addresses_of-IsPublished state port [] a m = elim m [ ]
addresses_of-IsPublished state port (t ∷ ts) a m =
    let deeper = λ (p : IsPublished state port ts a). the_deeper t p in
    elim (Option-cases (task_address state port t)) [
      | inl e ↦ deeper (addresses_of-IsPublished state port ts a (rw (addresses_of, e) at m))
      | inr (b, e) ↦ elim (cases_cons (insert_address-mem a b _ (rw (addresses_of, e) at m))) [
        | inl h ↦ record { task = t; among = Memᴰ.head refl; at = e ∙ ap some (sym h) }
        | inr u ↦ deeper (addresses_of-IsPublished state port ts a u)
      ]
    ]

IsPublished-addresses_of :
    (state : ClusterState) (port : ℕ) (tasks : List TaskRecord) (a : Str) (task : TaskRecord)
    → Memᴰ task tasks
    → task_address state port task ≡ some a
    → Memᴰ a (addresses_of state port tasks)
unfolding addresses_of
IsPublished-addresses_of state port [] a task m e = elim m [ ]
IsPublished-addresses_of state port (t ∷ ts) a task m e = elim (cases_cons m) [
  | inl h ↦
      rw (addresses_of, ap (task_address state port) (sym h) ∙ e)
        (mem-insert_address a a _ (Memᴰ.head refl))
  | inr u ↦
      let rest = IsPublished-addresses_of state port ts a task u e in
      elim (Option-cases (task_address state port t)) [
        | inl k ↦ rw (addresses_of, k) rest
        | inr (b, k) ↦ rw (addresses_of, k) (mem-insert_address a b _ (Memᴰ.tail rest))
      ]
]

same_key_iff : (a b : ServicePortKey) → (same_key a b ≡ true) ↔ (a ≡ b)
unfolding same_key
same_key_iff a b = (
  λ h. ground (arith, str_eq_iff a.service b.service, str_eq_iff a.protocol b.protocol),
  λ e. ground (arith, str_eq_iff a.service b.service, str_eq_iff a.protocol b.protocol),
)

upstream-insert :
    (key k : ServicePortKey) (found : List Str) (rest : List (ServicePortKey × List Str))
    → upstream key (insert_upstream k found rest)
      ≡ (if same_key k key then found else upstream key rest)
unfolding insert_upstream
upstream-insert key k found [] = refl
upstream-insert key k found ((j, old) ∷ rest) = ground (
  arith,
  same_key_iff k key,
  same_key_iff j k,
  same_key_iff j key,
  upstream-insert key k found rest,
)

either {ℓ} : {A : Type ℓ} (b : Bool) (x : A) → (if b then x else x) ≡ x
either true x = refl
either false x = refl

upstream-upstreams_on :
    (state : ClusterState) (name : Str) (key : ServicePortKey) (ks : List ServicePortKey)
    (found : List (ServicePortKey × List Str))
    → upstream key (upstreams_on state name ks found)
      ≡ (if any (λ k. same_key k key) ks then addresses state name key else upstream key found)
unfolding upstreams_on any
upstream-upstreams_on state name key [] found = refl
upstream-upstreams_on state name key (k ∷ ks) found =
    upstream-upstreams_on state name key ks (insert_upstream k (addresses state name k) found)
    ∙ elim (Bool-cases (same_key k key)) [
      | inl e ↦
          rw (e, upstream-insert)
            (ap (λ u. if any (λ x. same_key x key) ks then addresses state name key else u)
                (rw e (ap (addresses state name) ((same_key_iff k key).0 e)))
              ∙ either (any (λ x. same_key x key) ks) (addresses state name key))
      | inr e ↦ rw (e, upstream-insert) (rw e refl)
    ]

-- A task serves the key: it is running and healthy for the service, is not the one that a rolling
-- restart is at, and publishes the address for the port.
pub record IsUpstream (state : ClusterState) (stack_name : Str) (key : ServicePortKey) (a : Str)
    : Type 0 where
  pub task : TaskRecord
  pub of_cluster : Memᴰ task (values state.tasks)
  pub of_service : task.service_id ≡ stack_name ++ (b'.' ∷ key.service)
  pub wanted : task.desired ≡ DesiredTaskState.running
  pub well : task.observed ≡ ObservedTaskState.healthy
  pub left_alone : any (restarts_next task.id) (values state.service_operations) ≡ false
  pub at : task_address state key.target_port task ≡ some a

is_running-eq : (d : DesiredTaskState) → is_running d ≡ true → d ≡ DesiredTaskState.running
is_running-eq DesiredTaskState.running h = refl
is_running-eq DesiredTaskState.draining h = cc
is_running-eq DesiredTaskState.stopped h = cc

is_healthy-eq : (o : ObservedTaskState) → is_healthy o ≡ true → o ≡ ObservedTaskState.healthy
is_healthy-eq ObservedTaskState.healthy h = refl
is_healthy-eq ObservedTaskState.succeeded h = cc
is_healthy-eq ObservedTaskState.unknown h = cc
is_healthy-eq ObservedTaskState.cancelled h = cc
is_healthy-eq ObservedTaskState.timed_out h = cc
is_healthy-eq ObservedTaskState.pending h = cc
is_healthy-eq ObservedTaskState.starting h = cc
is_healthy-eq ObservedTaskState.running h = cc
is_healthy-eq ObservedTaskState.failed h = cc
is_healthy-eq ObservedTaskState.lost h = cc

addresses_iff :
    (state : ClusterState) (name : Str) (key : ServicePortKey) (a : Str)
    → Memᴰ a (addresses state name key) ↔ IsUpstream state name key a
unfolding addresses takes_requests service_id_of
addresses_iff state name key a =
    let service = service_id_of name key.service in
    let takes = takes_requests state service in
    (
      λ m.
          let p = addresses_of-IsPublished state key.target_port _ a m in
          let f = filter-mem takes (values state.tasks) p.among in
          let alone = &&-true _ _ f.1 in
          let well = &&-true _ _ alone.0 in
          let wanted = &&-true _ _ well.0 in
          record {
            task = p.task;
            of_cluster = f.0;
            of_service = (str_eq_iff p.task.service_id service).0 wanted.0;
            wanted = is_running-eq p.task.desired wanted.1;
            well = is_healthy-eq p.task.observed well.1;
            left_alone = not-true _ alone.1;
            at = p.at;
          },
      λ u.
          IsPublished-addresses_of state key.target_port _ a u.task
            (mem-filter takes (values state.tasks) u.of_cluster (
              rw
                (
                  takes_requests,
                  u.wanted,
                  u.well,
                  u.left_alone,
                  (str_eq_iff u.task.service_id service).1 u.of_service,
                )
                refl))
            u.at,
    )

fragment-upstreams_on :
    (state : ClusterState) (name : Str) (fragment : RecoveredStackGateway)
    → stack_fragment state name ≡ some fragment
    → fragment.upstreams ≡ upstreams_on state name (upstream_keys fragment.gateway) []
unfolding stack_fragment
fragment-upstreams_on state name fragment h = elim (Option-cases (get state.stacks name)) [
  | inl e ↦ absurd (cc (rw (stack_fragment, e) at h))
  | inr (stack, e) ↦ elim (Bool-cases (has_routes stack.gateway)) [
    | inl k ↦
        let same = Option.some-injective _ _ (rw (stack_fragment, e, k) at h) in
        ap (λ f. f.upstreams) (sym same)
        ∙ ap (λ f. upstreams_on state name (upstream_keys f.gateway) []) same
    | inr k ↦ absurd (cc (rw (stack_fragment, e, k) at h))
  ]
]

-- In the route of a stack, the addresses under a key that the stack's routes name are exactly those
-- of the tasks that are running and healthy for the key's service, are not the one that a rolling
-- restart is at, and publish the key's port for TCP on a node that is known.
pub stack_fragment-upstreams :
    (state : ClusterState) (stack_name : Str) (fragment : RecoveredStackGateway)
    (key : ServicePortKey) (a : Str)
    → stack_fragment state stack_name ≡ some fragment
    → any (λ k. same_key k key) (upstream_keys fragment.gateway) ≡ true
    → Memᴰ a (upstream key fragment.upstreams) ↔ IsUpstream state stack_name key a
stack_fragment-upstreams state stack_name fragment key a h named =
    let same : upstream key fragment.upstreams ≡ addresses state stack_name key =
      ap (upstream key) (fragment-upstreams_on state stack_name fragment h)
      ∙ upstream-upstreams_on state stack_name key (upstream_keys fragment.gateway) []
      ∙ rw named refl in
    subst (λ found. Memᴰ a found ↔ IsUpstream state stack_name key a) (sym same)
      (addresses_iff state stack_name key a)
