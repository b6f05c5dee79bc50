-- ===== src/Cluster/Gateway.antt =====
-- crates/swarmlite-stack/src/lib.rs: the gateway section of a stack, and the ports of a service
-- that its routes name.
use swarmlite.Base.{
  ℕ, Bool, Option, List, [], ◌∷◌, ◌++◌, ◌||◌, if◌then◌else◌, ltb, ◌==◌, Str, str_eq, is_some_and,
}

pub data GatewayTlsMode : Type 0 where
  serve disabled : GatewayTlsMode

pub data GatewayHttpMode : Type 0 where
  redirect serve disabled : GatewayHttpMode

pub data HttpPathMatchType : Type 0 where
  exact prefix regex : HttpPathMatchType

pub data HttpBackendProtocol : Type 0 where
  http https h2c : HttpBackendProtocol

pub record HttpPathMatch : Type 0 where
  pub path : Str
  pub kind : HttpPathMatchType
  pub ignore_case : Bool

pub record HttpPathRewrite : Type 0 where
  pub strip_prefix : Bool
  pub replace_prefix : Option Str
  pub replace_path : Option Str

pub record HttpCacheKeySpec : Type 0 where
  pub disable_query : Bool
  pub headers : List Str
  pub query_parameters : Option (List Str)

pub record HttpCacheSpec : Type 0 where
  pub ttl : Option Str
  pub allowed_http_verbs : Option (List Str)
  pub max_cacheable_body_bytes : Option ℕ
  pub max_request_body_bytes : Option ℕ
  pub key : Option HttpCacheKeySpec
  pub status_codes : Option (List ℕ)

pub record HttpBackend : Type 0 where
  pub service : Option Str
  pub host : Option Str
  pub port : ℕ
  pub protocol : HttpBackendProtocol
  pub preserve_host : Bool

pub record HttpRouteRule : Type 0 where
  pub matches : List HttpPathMatch
  pub rewrite : Option HttpPathRewrite
  pub cache : Option HttpCacheSpec
  pub backend : HttpBackend

pub record HttpRouteSpec : Type 0 where
  pub hostnames : List Str
  pub canonical_hostname : Option Str
  pub tls : Option GatewayTlsMode
  pub http : Option GatewayHttpMode
  pub trusted_proxies : Option (List Str)
  pub rules : List HttpRouteRule

pub record TcpBackend : Type 0 where
  pub service : Str
  pub port : ℕ

pub record TcpRouteSpec : Type 0 where
  pub listen : ℕ
  pub backend : TcpBackend

pub record StackGatewaySpec : Type 0 where
  pub tls : GatewayTlsMode
  pub http : GatewayHttpMode
  pub trusted_proxies : List Str
  pub http_routes : List HttpRouteSpec
  pub tcp_routes : List TcpRouteSpec

-- `!vec.is_empty()`.
abbrev pub non_empty : {A : Type 0} → List A → Bool
non_empty [] = Bool.false
non_empty (x ∷ xs) = Bool.true

-- `StackGatewaySpec::has_routes`.
unfoldable pub has_routes : StackGatewaySpec → Bool
has_routes g = non_empty g.http_routes || non_empty g.tcp_routes

-- `BTreeSet<u16>`: an ascending list without repetitions.
unfoldable pub set_insert : ℕ → List ℕ → List ℕ
set_insert p [] = p ∷ []
set_insert p (q ∷ qs) =
    if p == q then q ∷ qs else if ltb p q then p ∷ q ∷ qs else q ∷ set_insert p qs

unfoldable pub set_extend : List ℕ → List ℕ → List ℕ
set_extend set [] = set
set_extend set (p ∷ ps) = set_extend (set_insert p set) ps

-- The rules of all routes, `flat_map(|route| &route.rules)`.
unfoldable pub route_rules : List HttpRouteSpec → List HttpRouteRule
route_rules [] = []
route_rules (r ∷ rs) = r.rules ++ route_rules rs

unfoldable pub http_rule_ports : Str → List HttpRouteRule → List ℕ
http_rule_ports name [] = []
http_rule_ports name (r ∷ rs) =
    let rest = http_rule_ports name rs in
    if is_some_and r.backend.service (λ s. str_eq s name) then r.backend.port ∷ rest else rest

unfoldable pub tcp_route_ports : Str → List TcpRouteSpec → List ℕ
tcp_route_ports name [] = []
tcp_route_ports name (r ∷ rs) =
    let rest = tcp_route_ports name rs in
    if str_eq r.backend.service name then r.backend.port ∷ rest else rest

unfoldable pub http_routed_service_ports : StackGatewaySpec → Str → List ℕ
unfolding http_rule_ports route_rules set_extend
http_routed_service_ports g name = set_extend [] (http_rule_ports name (route_rules g.http_routes))

unfoldable pub routed_service_ports : StackGatewaySpec → Str → List ℕ
unfolding http_routed_service_ports tcp_route_ports set_extend
routed_service_ports g name =
    set_extend [] (http_routed_service_ports g name ++ tcp_route_ports name g.tcp_routes)
