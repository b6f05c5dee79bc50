-- ===== src/Gateway/PortKey.antt =====
-- crates/swarmlite-core/src/model.rs: `ServicePortKey`, its `Display` and its `FromStr`. The texts
-- are the keys of the upstream map in JSON. `decimal` and `parse_u16` are the standard library's
-- `Display` and `FromStr` of `u16`; five digits are enough for every `u16`.
use mathlib.Core.Option
use swarmlite.Base.{
  ℕ, zero, suc, ◌+◌, ◌-◌, ◌*◌, ◌/◌, ◌%◌, Bool, true, false, Option, none, some, List, [], ◌∷◌, ◌++◌,
  ◌&&◌, ◌||◌, not, if◌then◌else◌, ltb, leb, ◌==◌, Str, codes, str_eq,
}
use swarmlite.Base.Scan.{rsplit_once}
use swarmlite.Cluster.{ServicePortKey, HttpBackendProtocol}
pub mod RoundTrip
pub mod Parsed

unfoldable pub tcp : Str → ℕ → ServicePortKey
tcp service target_port = record {
  service = service;
  target_port = target_port;
  protocol = codes "tcp";
}

unfoldable pub protocol_name : HttpBackendProtocol → Str
protocol_name HttpBackendProtocol.http = codes "http"
protocol_name HttpBackendProtocol.https = codes "https"
protocol_name HttpBackendProtocol.h2c = codes "h2c"

-- `ServicePortKey::new`.
unfoldable pub new_key : Str → ℕ → HttpBackendProtocol → ServicePortKey
new_key service target_port protocol = record {
  service = service;
  target_port = target_port;
  protocol = protocol_name protocol;
}

unfoldable pub decimal_on : ℕ → ℕ → Str → Str
decimal_on zero n acc = acc
decimal_on (suc f) n acc =
    let next = (b'0' + n % 10) ∷ acc in
    let rest = decimal_on f (n / 10) next in if ltb n 10 then next else rest

unfoldable pub decimal : ℕ → Str
decimal n = decimal_on 5 n []

-- The digits after a value that is already read.
unfoldable pub digits_on : ℕ → Str → Option ℕ
digits_on value [] = some value
digits_on value (c ∷ s) =
    let next = value * 10 + (c - b'0') in
    let rest = digits_on next s in if leb b'0' c && leb c b'9' && ltb next 65536 then rest else none

-- At least one digit.
unfoldable pub digits : Str → Option ℕ
digits [] = none
digits (c ∷ s) = digits_on 0 (c ∷ s)

-- One plus sign may stand before the digits.
unfoldable pub parse_u16 : Str → Option ℕ
parse_u16 [] = none
parse_u16 (c ∷ s) = if c == b'+' then digits s else digits (c ∷ s)

unfoldable pub to_string : ServicePortKey → Str
to_string key = key.service ++ (b':' ∷ (decimal key.target_port ++ (b':' ∷ key.protocol)))

unfoldable pub is_protocol : Str → Bool
is_protocol protocol =
    str_eq protocol (codes "http")
    || str_eq protocol (codes "https")
    || str_eq protocol (codes "h2c")
    || str_eq protocol (codes "tcp")

abbrev is_nil : Str → Bool
is_nil [] = true
is_nil (c ∷ s) = false

-- The checks after both splits; an error is `none`.
unfoldable pub checked_key : Str → ℕ → Str → Option ServicePortKey
checked_key service target_port protocol =
    if is_nil service || target_port == 0
    then none
    else if not (is_protocol protocol)
    then none
    else some (record { service = service; target_port = target_port; protocol = protocol })

unfoldable pub from_str : Str → Option ServicePortKey
from_str value = elim (rsplit_once b':' value) [
  | none ↦ none
  | some (service_and_port, protocol) ↦ elim (rsplit_once b':' service_and_port) [
    | none ↦ none
    | some (service, port) ↦ elim (parse_u16 port) [
      | none ↦ none
      | some target_port ↦ checked_key service target_port protocol
    ]
  ]
]
