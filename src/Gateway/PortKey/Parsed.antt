-- ===== src/Gateway/PortKey/Parsed.antt =====
-- model.rs: what the parser of `ServicePortKey` accepts.
use mathlib.Core.Option
use swarmlite.Base.{
  ℕ, ◌+◌, ◌-◌, ◌*◌, ◌<◌, ◌≡◌, sym, ap, ◌∙◌, subst, some, [], ◌∷◌, ◌++◌, ◌||◌, arith, inl, inr, ◌==◌,
  Bool-cases, Option-cases, Str,
}
use swarmlite.Base.Scan.{rsplit_once}
use swarmlite.Cluster.{ServicePortKey}
use swarmlite.Gateway.PortKey.{
  digits_on, digits, parse_u16, is_protocol, checked_key, from_str, is_nil,
}
use swarmlite.Gateway.PortKey.RoundTrip.{IsValid, append_assoc}

digits_on-small : (value n : ℕ) (s : Str) → value < 65536 → digits_on value s ≡ some n → n < 65536
unfolding digits_on
digits_on-small value n [] h e = rw (sym (Option.some-injective _ _ e)) h
digits_on-small value n (c ∷ s) h e = ground (arith, digits_on-small (value * 10 + (c - b'0')) n s)

digits-small : (n : ℕ) (s : Str) → digits s ≡ some n → n < 65536
unfolding digits
digits-small n [] e = cc
digits-small n (c ∷ s) e = digits_on-small 0 n (c ∷ s) (omega arith) e

parse_u16-small : (n : ℕ) (s : Str) → parse_u16 s ≡ some n → n < 65536
unfolding parse_u16
parse_u16-small n [] = λ e. cc
parse_u16-small n (c ∷ s) = elim (Bool-cases (c == b'+')) [
  | inl k ↦ rw k (digits-small n s)
  | inr k ↦ rw k (digits-small n (c ∷ s))
]

checked_key-IsValid :
    (service protocol : Str) (port : ℕ) (key : ServicePortKey)
    → port < 65536
    → checked_key service port protocol ≡ some key
    → IsValid key
unfolding checked_key
checked_key-IsValid service protocol port key small =
    elim (Bool-cases (is_nil service || port == 0)) [
      | inl bad ↦ rw (checked_key, bad) (λ e. cc)
      | inr fine ↦ elim (Bool-cases (is_protocol protocol)) [
        | inr bad ↦ rw (checked_key, fine, bad) (λ e. cc)
        | inl known ↦
            rw (checked_key, fine, known)
              (λ e. subst IsValid (Option.some-injective _ _ e) (record {
                named = ground arith;
                positive = ground arith;
                small = small;
                known = known;
              }))
      ]
    ]

rsplit_once-some :
    (d : ℕ) (value : Str) (parts : Str × Str)
    → rsplit_once d value ≡ some parts
    → value ≡ parts.0 ++ (d ∷ parts.1)
unfolding rsplit_once
rsplit_once-some d [] parts e = absurd (cc e)
rsplit_once-some d (c ∷ value) parts e = elim (Option-cases (rsplit_once d value)) [
  | inr (rest, k) ↦
      let same : (c ∷ rest.0, rest.1) ≡ parts = Option.some-injective _ _ (rw k at e) in
      ap (λ u. c ∷ u) (rsplit_once-some d value rest k) ∙ ap (λ u. u.0 ++ (d ∷ u.1)) same
  | inl k ↦ elim (Bool-cases (c == d)) [
    | inl h ↦
        let same : ([], value) ≡ parts = Option.some-injective _ _ (rw (k, h) at e) in
        let eq : c ≡ d = ground arith in ap (λ x. x ∷ value) eq ∙ ap (λ u. u.0 ++ (d ∷ u.1)) same
    | inr h ↦ absurd (cc (rw (k, h) at e))
  ]
]

-- A text is a service name, the port and the protocol of the key, with colons between them.
abbrev pub IsText : Str → ServicePortKey → Type 0
IsText value key =
    (port : Str) × (value ≡ key.service ++ (b':' ∷ (port ++ (b':' ∷ key.protocol))))
    × (parse_u16 port ≡ some key.target_port)

checked_key-eq :
    (service protocol : Str) (port : ℕ) (key : ServicePortKey)
    → checked_key service port protocol ≡ some key
    → record { service = service; target_port = port; protocol = protocol } ≡ key
unfolding checked_key
checked_key-eq service protocol port key = elim (Bool-cases (is_nil service || port == 0)) [
  | inl bad ↦ rw (checked_key, bad) (λ e. cc)
  | inr fine ↦ elim (Bool-cases (is_protocol protocol)) [
    | inr bad ↦ rw (checked_key, fine, bad) (λ e. cc)
    | inl known ↦ rw (checked_key, fine, known) (λ e. Option.some-injective _ _ e)
  ]
]

-- Only well-formed texts are accepted: whatever text parses to a key, the key has a service name that
-- is not empty, a port from 1 to 65535 and a known protocol, and the text is this name, a spelling of
-- this port and this protocol with colons between them.
pub from_str-IsValid :
    (value : Str) (key : ServicePortKey)
    → from_str value ≡ some key
    → IsValid key × IsText value key
unfolding from_str
from_str-IsValid value key = elim (Option-cases (rsplit_once b':' value)) [
  | inl bad ↦ rw (from_str, bad) (λ e. cc)
  | inr ((front, protocol), e1) ↦ elim (Option-cases (rsplit_once b':' front)) [
    | inl bad ↦ rw (from_str, e1, bad) (λ e. cc)
    | inr ((service, port), e2) ↦ elim (Option-cases (parse_u16 port)) [
      | inl bad ↦ rw (from_str, e1, e2, bad) (λ e. cc)
      | inr (n, e3) ↦
          rw (from_str, e1, e2, e3)
            (λ e.
              let whole : IsText value
                  (record { service = service; target_port = n; protocol = protocol }) =
                (
                  port,
                  rsplit_once-some b':' value (front, protocol) e1
                      ∙ ap (λ u. u ++ (b':' ∷ protocol))
                          (rsplit_once-some b':' front (service, port) e2)
                      ∙ append_assoc service (b':' ∷ port) (b':' ∷ protocol),
                  e3,
                ) in
              (
                checked_key-IsValid service protocol n key (parse_u16-small n port e3) e,
                subst (IsText value) (checked_key-eq service protocol n key e) whole,
              ))
    ]
  ]
]
