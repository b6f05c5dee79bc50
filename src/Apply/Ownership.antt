-- ===== src/Apply/Ownership.antt =====
-- stacks.rs, `validate_gateway_hostname_ownership`: whose ports and hostnames are taken.
use mathlib.Core.Option
use swarmlite.Base.{
  ℕ, ◌≡◌, ◌≢◌, refl, sym, ap, ap₂, ◌∙◌, ◌⊎◌, Bool, false, some, none, List, [], ◌∷◌, ◌++◌, arith,
  any, is_some, any-false, ||-false, Memᴰ, Bool-cases, inl, inr, Str, str_eq, str_eq_iff,
}
use swarmlite.Base.Map.{BTreeMap, get, insert, contains_key, get-insert}
use swarmlite.Scheduler.Ports.{contains, contains_ℕ}
use swarmlite.Cluster.{StackGatewaySpec, StackRecord, RecoveredStackGateway, ClusterState}
use swarmlite.Kv.Locks.{Response}
use swarmlite.Apply.Guards.{
  Owned, hostnames, tcp_ports, stack_gateways, route_gateways, or_insert, takes_port,
  takes_hostname, validate_gateway_hostname_ownership,
}

-- The request is accepted: the tests on all owners fail.
accepted :
    (state : ClusterState) (stack_name : Str) (gateway : StackGatewaySpec)
    → validate_gateway_hostname_ownership state stack_name gateway ≡ Response.ok tt
    → (any
          (takes_port stack_name (tcp_ports gateway))
          (stack_gateways state.stacks ++ route_gateways state.gateway_routes)
        ≡ false)
      × (any
            (takes_hostname stack_name (hostnames gateway.http_routes))
            (or_insert (stack_gateways state.stacks) (route_gateways state.gateway_routes))
          ≡ false)
unfolding validate_gateway_hostname_ownership
accepted state stack_name gateway h = ground arith

any-append-left {ℓ} :
    {A : Type ℓ} (p : A → Bool) (xs ys : List A) → any p (xs ++ ys) ≡ false → any p xs ≡ false
unfolding any
any-append-left p [] ys h = refl
any-append-left p (x ∷ xs) ys h = ground (arith, any-append-left p xs ys)

found-false :
    (p : Str × StackGatewaySpec → Bool) (m : Owned) (owner : Str) (gateway : StackGatewaySpec)
    → any p m ≡ false
    → get m owner ≡ some gateway
    → p (owner, gateway) ≡ false
unfolding any get
found-false p [] owner gateway h found = absurd (cc found)
found-false p ((k, g) ∷ m) owner gateway h found =
    let parts = ||-false (p (k, g)) (any p m) h in
    elim (Bool-cases (str_eq k owner)) [
      | inl e ↦
          ap₂ (λ x y. p (x, y)) (sym ((str_eq_iff k owner).0 e))
            (sym (Option.some-injective _ _ (rw e at found)))
          ∙ parts.0
      | inr e ↦ found-false p m owner gateway parts.1 (rw e at found)
    ]

get-stack_gateways :
    (stacks : BTreeMap StackRecord) (owner : Str) (stack : StackRecord)
    → get stacks owner ≡ some stack
    → get (stack_gateways stacks) owner ≡ some stack.gateway
unfolding stack_gateways get
get-stack_gateways [] owner stack h = absurd (cc h)
get-stack_gateways ((k, s) ∷ m) owner stack h = elim (Bool-cases (str_eq k owner)) [
  | inl e ↦ rw e (ap some (ap (λ x. x.gateway) (Option.some-injective _ _ (rw e at h))))
  | inr e ↦ rw e (get-stack_gateways m owner stack (rw e at h))
]

get-route_gateways :
    (routes : BTreeMap RecoveredStackGateway) (owner : Str) (fragment : RecoveredStackGateway)
    → get routes owner ≡ some fragment
    → get (route_gateways routes) owner ≡ some fragment.gateway
unfolding route_gateways get
get-route_gateways [] owner fragment h = absurd (cc h)
get-route_gateways ((k, s) ∷ m) owner fragment h = elim (Bool-cases (str_eq k owner)) [
  | inl e ↦ rw e (ap some (ap (λ x. x.gateway) (Option.some-injective _ _ (rw e at h))))
  | inr e ↦ rw e (get-route_gateways m owner fragment (rw e at h))
]

-- The specification that reserves a stack's hostnames: that of its served route, or, where it has
-- none, that of its record.
abbrev pub Reserves : ClusterState → (owner : Str) → StackGatewaySpec → Type 0
Reserves state owner spec =
    ((fragment : RecoveredStackGateway) × (get state.gateway_routes owner ≡ some fragment)
      × (fragment.gateway ≡ spec))
    ⊎ ((get state.gateway_routes owner ≡ none)
        × ((stack : StackRecord) × (get state.stacks owner ≡ some stack) × (stack.gateway ≡ spec)))

get-route_gateways-none :
    (routes : BTreeMap RecoveredStackGateway) (owner : Str)
    → get routes owner ≡ none
    → get (route_gateways routes) owner ≡ none
unfolding route_gateways get
get-route_gateways-none [] owner h = refl
get-route_gateways-none ((k, s) ∷ m) owner h = elim (Bool-cases (str_eq k owner)) [
  | inl e ↦ absurd (cc (rw e at h))
  | inr e ↦ rw e (get-route_gateways-none m owner (rw e at h))
]

-- What is owned already stays.
get-or_insert :
    (more owners : Owned) (owner : Str) (gateway : StackGatewaySpec)
    → get owners owner ≡ some gateway
    → get (or_insert more owners) owner ≡ some gateway
unfolding or_insert
get-or_insert [] owners owner gateway h = h
get-or_insert ((k, g) ∷ more) owners owner gateway h = elim (Bool-cases (contains_key owners k)) [
  | inl e ↦ rw e (get-or_insert more owners owner gateway h)
  | inr e ↦ rw e (
      get-or_insert more (insert k g owners) owner gateway (elim (Bool-cases (str_eq k owner)) [
        | inl same ↦
            absurd (cc (e, ap is_some h, ap (contains_key owners) ((str_eq_iff k owner).0 same)))
        | inr other ↦ get-insert k owner g owners ∙ rw other h
      ]))
]

-- What is not owned is taken from the rest.
or_insert-fresh :
    (more owners : Owned) (owner : Str)
    → get owners owner ≡ none
    → get (or_insert more owners) owner ≡ get more owner
unfolding or_insert get
or_insert-fresh [] owners owner h = h
or_insert-fresh ((k, g) ∷ more) owners owner h = elim (Bool-cases (str_eq k owner)) [
  | inl same ↦
      let absent : contains_key owners k ≡ false =
        ap (contains_key owners) ((str_eq_iff k owner).0 same) ∙ ap is_some h in
      rw (absent, same)
        (get-or_insert more (insert k g owners) owner g
          (get-insert k owner g owners ∙ rw same refl))
  | inr other ↦ elim (Bool-cases (contains_key owners k)) [
    | inl e ↦ rw (e, other) (or_insert-fresh more owners owner h)
    | inr e ↦
        rw (e, other)
          (or_insert-fresh more (insert k g owners) owner
            (get-insert k owner g owners ∙ rw other h))
  ]
]

other-name : (owner stack_name : Str) → owner ≢ stack_name → str_eq owner stack_name ≡ false
other-name owner stack_name other = elim (Bool-cases (str_eq owner stack_name)) [
  | inl e ↦ absurd (other ((str_eq_iff owner stack_name).0 e))
  | inr e ↦ e
]

-- Stacks share no TCP port: where a gateway specification is accepted for a stack, no port of its
-- TCP routes is one that a TCP route of another stack of the cluster listens on.
pub validate_gateway_hostname_ownership-ports :
    (state : ClusterState) (stack_name owner : Str) (gateway : StackGatewaySpec)
    (stack : StackRecord) (port : ℕ)
    → validate_gateway_hostname_ownership state stack_name gateway ≡ Response.ok tt
    → get state.stacks owner ≡ some stack
    → owner ≢ stack_name
    → Memᴰ port (tcp_ports stack.gateway)
    → contains_ℕ (tcp_ports gateway) port ≡ false
unfolding takes_port
validate_gateway_hostname_ownership-ports state stack_name owner gateway stack port ok found other
      m =
    let all_free =
      any-append-left (takes_port stack_name (tcp_ports gateway)) (stack_gateways state.stacks) _
        (accepted state stack_name gateway ok).0 in
    let free =
      found-false _ (stack_gateways state.stacks) owner stack.gateway all_free
        (get-stack_gateways state.stacks owner stack found) in
    any-false (contains_ℕ (tcp_ports gateway)) (tcp_ports stack.gateway)
      (rw (takes_port, other-name owner stack_name other) at free) m

get-reserved :
    (state : ClusterState) (owner : Str) (spec : StackGatewaySpec)
    → Reserves state owner spec
    → get (or_insert (stack_gateways state.stacks) (route_gateways state.gateway_routes)) owner
      ≡ some spec
get-reserved state owner spec (inl (fragment, found, same)) =
    get-or_insert (stack_gateways state.stacks) (route_gateways state.gateway_routes) owner spec
      (get-route_gateways state.gateway_routes owner fragment found ∙ ap some same)
get-reserved state owner spec (inr (unserved, (stack, found, same))) =
    or_insert-fresh (stack_gateways state.stacks) (route_gateways state.gateway_routes) owner
      (get-route_gateways-none state.gateway_routes owner unserved)
    ∙ get-stack_gateways state.stacks owner stack found
    ∙ ap some same

-- A hostname that another stack has reserved is refused: where a gateway specification is accepted
-- for a stack, no hostname of its HTTP routes is one of the route that the gateways serve for another
-- stack, or, where they serve none for it, one of the specification in that stack's record.
pub validate_gateway_hostname_ownership-hostnames :
    (state : ClusterState) (stack_name owner : Str) (gateway spec : StackGatewaySpec)
    (hostname : Str)
    → validate_gateway_hostname_ownership state stack_name gateway ≡ Response.ok tt
    → Reserves state owner spec
    → owner ≢ stack_name
    → Memᴰ hostname (hostnames spec.http_routes)
    → contains (hostnames gateway.http_routes) hostname ≡ false
unfolding takes_hostname
validate_gateway_hostname_ownership-hostnames state stack_name owner gateway spec hostname ok
      reserved other m =
    let free =
      found-false _ _ owner spec (accepted state stack_name gateway ok).1
        (get-reserved state owner spec reserved) in
    any-false (contains (hostnames gateway.http_routes)) (hostnames spec.http_routes)
      (rw (takes_hostname, other-name owner stack_name other) at free) m
