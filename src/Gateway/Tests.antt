-- ===== src/Gateway/Tests.antt =====
-- Keys of upstreams, printed and parsed.
use swarmlite.Base.{
  ◌≡◌, ◌↔◌, refl, none, some, [], ◌∷◌, Memᴰ, if◌then◌else◌, arith, codes, str_eq, filter, find, any,
}
use swarmlite.Base.Scan.{rsplit_once, contains_char, strip_prefix}
use swarmlite.Base.Map.{get, values}
use swarmlite.Cluster.{
  ServicePortKey, StackGatewaySpec, GatewayTlsMode, GatewayHttpMode, ClusterState,
  RecoveredStackGateway, route_rules, has_routes, restarting_task,
}
use swarmlite.Scheduler.Samples.{updating}
use swarmlite.Gateway.Routes.{
  stack_fragment, upstreams_on, insert_upstream, addresses, addresses_of, insert_address,
  task_address, takes_requests, restarts_next, service_id_of, upstream_keys, http_keys, tcp_keys,
  format_host, same_key, replace_stack_route, refresh_ready_stack_routes,
}
use swarmlite.Gateway.Routes.Upstreams.{upstream, IsUpstream, stack_fragment-upstreams}
use swarmlite.Gateway.Routes.Settled.{
  is_reported, replace_stack_route_lem, refresh_ready_stack_routes_lem,
}
use swarmlite.Gateway.PortKey.{
  tcp, decimal, decimal_on, digits, digits_on, parse_u16, to_string, is_protocol, checked_key,
  from_str,
}
use swarmlite.Gateway.PortKey.RoundTrip.{IsValid, from_str-to_string}
use swarmlite.Gateway.PortKey.Parsed.{IsText, from_str-IsValid}

abbrev web_key : ServicePortKey
web_key = record { service = codes "a:b"; target_port = 8080; protocol = codes "http" }

web_key-IsValid : IsValid web_key
unfolding is_protocol str_eq
web_key-IsValid = record {
  named = refl;
  positive = ground arith;
  small = omega arith;
  known = refl;
}

printed : to_string web_key ≡ codes "a:b:8080:http"
unfolding to_string decimal decimal_on
printed = refl

from_str-to_string_example : from_str (to_string web_key) ≡ some web_key
from_str-to_string_example = from_str-to_string web_key web_key-IsValid

-- A port may have a sign and leading zeros.
parsed : from_str (codes "a:b:+08080:http") ≡ some web_key
unfolding from_str rsplit_once parse_u16 digits digits_on checked_key is_protocol str_eq
parsed = refl

from_str-IsValid_example : IsValid web_key × IsText (codes "a:b:+08080:http") web_key
from_str-IsValid_example = from_str-IsValid (codes "a:b:+08080:http") web_key parsed

zero_port : from_str (codes "a:0:http") ≡ none
unfolding from_str rsplit_once parse_u16 digits digits_on checked_key is_protocol str_eq
zero_port = refl

-- A stack with one route of each kind to the service `web`, which runs on node `a`.
abbrev gateway : StackGatewaySpec
gateway = record {
  tls = GatewayTlsMode.serve;
  http = GatewayHttpMode.redirect;
  trusted_proxies = [];
  http_routes = [];
  tcp_routes = record { listen = 5432; backend = record { service = codes "web"; port = 80 } } ∷ [];
}

abbrev routed : ClusterState
routed = record updating {
  stacks =
      (
        codes "demo",
        record {
          name = codes "demo";
          applied_at_unix_ms = 1;
          services = codes "demo.web" ∷ [];
          gateway = gateway;
          deployment = none;
          deployment_history = [];
        },
      )
      ∷ [];
}

abbrev fragment : RecoveredStackGateway
fragment = record {
  gateway = gateway;
  upstreams = (tcp (codes "web") 80, codes "10.0.0.1:8080" ∷ []) ∷ [];
}

running : Unit {0}
unfolding stack_fragment upstreams_on insert_upstream addresses addresses_of insert_address
    task_address takes_requests restarts_next service_id_of upstream_keys http_keys tcp_keys
    format_host contains_char strip_prefix decimal decimal_on route_rules has_routes get values
    filter find any str_eq tcp same_key restarting_task
running = tt

routed-fragment : stack_fragment routed (codes "demo") ≡ some fragment
unfolding running
routed-fragment = refl

stack_fragment-upstreams_example :
    Memᴰ (codes "10.0.0.1:8080") (upstream (tcp (codes "web") 80) fragment.upstreams)
    ↔ IsUpstream routed (codes "demo") (tcp (codes "web") 80) (codes "10.0.0.1:8080")
unfolding running
stack_fragment-upstreams_example =
    stack_fragment-upstreams routed (codes "demo") fragment (tcp (codes "web") 80)
      (codes "10.0.0.1:8080") routed-fragment refl

replace_stack_route_lem_example :
    get (replace_stack_route routed (codes "demo")).0.gateway_routes (codes "demo") ≡ (
      if str_eq (codes "demo") (codes "demo")
      then stack_fragment routed (codes "demo")
      else get routed.gateway_routes (codes "demo"))
replace_stack_route_lem_example = replace_stack_route_lem routed (codes "demo") (codes "demo")

refresh_ready_stack_routes_lem_example :
    get (refresh_ready_stack_routes routed).0.gateway_routes (codes "demo") ≡ (
      if is_reported routed (codes "demo")
      then stack_fragment routed (codes "demo")
      else get routed.gateway_routes (codes "demo"))
refresh_ready_stack_routes_lem_example = refresh_ready_stack_routes_lem routed (codes "demo")

ipv6 : format_host (codes "::1") ≡ codes "[::1]"
unfolding format_host contains_char any strip_prefix
ipv6 = refl
