-- ===== src/Scheduler/Ports/Used.antt =====
-- scheduler.rs, `used_ports`: the map of used ports and the bindings of a node.
use swarmlite.Base.{
  ℕ, ◌≡◌, refl, Bool, List, [], ◌∷◌, ◌&&◌, ◌||◌, not, arith, ◌==◌, any, all, is_some_and,
  is_none_or, unwrap_or, Option-cases, inl, inr, Str, str_eq, str_eq_iff,
}
use swarmlite.Base.Map.{BTreeMap, get, get-insert}
use swarmlite.Cluster.{ServicePort, ServiceSpec, set_insert, PortBinding, NodeRecord, ClusterState}
use swarmlite.Scheduler.Ports.{
  contains_ℕ, use_port, use_ports, used_ports, port_is_free, node_bindings,
  explicit_ports_available,
}

contains-set_insert :
    (p q : ℕ) (s : List ℕ) → contains_ℕ (set_insert p s) q ≡ ((p == q) || contains_ℕ s q)
unfolding set_insert any
contains-set_insert p q [] = ground arith
contains-set_insert p q (r ∷ s) = ground (arith, contains-set_insert p q s)

abbrev is_used : BTreeMap (List ℕ) → Str → ℕ → Bool
is_used used protocol p = is_some_and (get used protocol) (λ set. contains_ℕ set p)

-- A binding of the node publishes the port on the protocol.
abbrev pub binds : Str → ℕ → PortBinding → Bool
binds protocol p b = is_some_and b.published (λ q. q == p) && str_eq b.protocol protocol

is_used-use_port :
    (used : BTreeMap (List ℕ)) (b : PortBinding) (protocol : Str) (p : ℕ)
    → is_used (use_port used b) protocol p ≡ (binds protocol p b || is_used used protocol p)
unfolding use_port any
is_used-use_port used b protocol p = elim (Option-cases b.published) [
  | inl e ↦ rw (e, use_port) refl
  | inr (q, e) ↦
      rw (e, use_port)
        (rw get-insert (
          ground (
            arith,
            str_eq_iff b.protocol protocol,
            contains-set_insert q p (unwrap_or (get used b.protocol) []),
          )))
]

is_used-use_ports :
    (used : BTreeMap (List ℕ)) (bs : List PortBinding) (protocol : Str) (p : ℕ)
    → is_used (use_ports used bs) protocol p
      ≡ (any (binds protocol p) bs || is_used used protocol p)
unfolding use_ports any
is_used-use_ports used [] protocol p = refl
is_used-use_ports used (b ∷ bs) protocol p =
    ground
      (arith, is_used-use_ports (use_port used b) bs protocol p, is_used-use_port used b protocol p)

-- A requested port is free when no binding of the node publishes it on its protocol.
abbrev pub no_clash : List PortBinding → ServicePort → Bool
no_clash bs port = is_none_or port.published (λ p. not (any (binds port.protocol p) bs))

port_is_free-eq :
    (bs : List PortBinding) (port : ServicePort)
    → port_is_free (use_ports [] bs) port ≡ no_clash bs port
unfolding port_is_free get
port_is_free-eq bs port = elim (Option-cases port.published) [
  | inl e ↦ rw e refl
  | inr (p, e) ↦ rw e (ground (arith, is_used-use_ports [] bs port.protocol p))
]

all-eq :
    (bs : List PortBinding) (ports : List ServicePort)
    → all (port_is_free (use_ports [] bs)) ports ≡ all (no_clash bs) ports
unfolding all
all-eq bs [] = refl
all-eq bs (port ∷ ports) = ground (arith, port_is_free-eq bs port, all-eq bs ports)

-- The map of used ports decides exactly whether a fixed port of the specification clashes with a
-- binding of the node: the port map test equals the pairwise comparison of requests and bindings.
pub explicit_ports_available_lem :
    (state : ClusterState) (node : NodeRecord) (spec : ServiceSpec)
    → explicit_ports_available state node spec
      ≡ all (no_clash (node_bindings state node.id)) spec.ports
unfolding explicit_ports_available used_ports
explicit_ports_available_lem state node spec = all-eq (node_bindings state node.id) spec.ports
