-- ===== src/Gateway/PortKey/RoundTrip.antt =====
-- model.rs: printing and parsing `ServicePortKey`.
use swarmlite.Base.{
  ℕ, zero, suc, ◌+◌, ◌-◌, ◌*◌, ◌/◌, ◌%◌, ◌<◌, ◌≡◌, ◌≢◌, refl, sym, ap, ◌∙◌, Bool, true, false, none,
  some, [], ◌∷◌, ◌++◌, ◌&&◌, arith, inl, inr, ltb, leb, ◌==◌, all, Bool-cases, Str, codes, str_eq,
  str_eq_iff,
}
use swarmlite.Base.Scan.{rsplit_once}
use swarmlite.Base.Split.{Free}
use swarmlite.Cluster.{ServicePortKey}
use swarmlite.Gateway.PortKey.{
  decimal_on, decimal, digits_on, digits, parse_u16, to_string, is_protocol, checked_key, from_str,
  is_nil,
}

rsplit_once-none : (d : ℕ) (s : Str) → Free d s → rsplit_once d s ≡ none
unfolding rsplit_once all
rsplit_once-none d [] h = refl
rsplit_once-none d (c ∷ s) h = rw (rsplit_once-none d s (ground arith)) (ground arith)

-- The last separator is found, whatever stands before it.
rsplit_once-last : (d : ℕ) (s t : Str) → Free d t → rsplit_once d (s ++ (d ∷ t)) ≡ some (s, t)
unfolding rsplit_once
rsplit_once-last d [] t h = rw (rsplit_once-none d t h) (ground arith)
rsplit_once-last d (c ∷ s) t h = rw (rsplit_once-last d s t h) refl

-- The least number with more than `f` digits.
abbrev bound : ℕ → ℕ
bound zero = 1
bound (suc f) = 10 * bound f

-- Reading one more digit of a number.
digits_on-digit :
    (value n : ℕ) (acc : Str)
    → n ≡ value * 10 + n % 10
    → n < 65536
    → digits_on value ((b'0' + n % 10) ∷ acc) ≡ digits_on n acc
unfolding digits_on
digits_on-digit value n acc e small =
    let next : value * 10 + (b'0' + n % 10 - b'0') ≡ n = omega arith in
    let low : leb b'0' (b'0' + n % 10) ≡ true = ground arith in
    let high : leb (b'0' + n % 10) b'9' ≡ true = ground arith in
    let fits : ltb n 65536 ≡ true = ground arith in rw (next, low, high, fits) refl

digits_on-decimal :
    (f n : ℕ) (acc : Str)
    → n < bound f
    → n < 65536
    → digits_on 0 (decimal_on f n acc) ≡ digits_on n acc
unfolding decimal_on
digits_on-decimal zero n acc b l = ap (λ m. digits_on m acc) (omega arith)
digits_on-decimal (suc f) n acc b l = elim (Bool-cases (ltb n 10)) [
  | inl e ↦ rw e (digits_on-digit 0 n acc (ground arith) l)
  | inr e ↦ rw e (
      digits_on-decimal f (n / 10) ((b'0' + n % 10) ∷ acc) (omega arith) (omega arith)
      ∙ digits_on-digit (n / 10) n acc (omega arith) l)
]

-- What is printed begins with a digit, and holds digits only.
is_digit : ℕ → Bool
is_digit c = leb b'0' c && leb c b'9'

decimal_on-digits :
    (f n : ℕ) (acc : Str) → all is_digit acc ≡ true → all is_digit (decimal_on f n acc) ≡ true
unfolding decimal_on all is_digit
decimal_on-digits zero n acc h = h
decimal_on-digits (suc f) n acc h =
    let next : all is_digit ((b'0' + n % 10) ∷ acc) ≡ true = ground arith in
    elim (Bool-cases (ltb n 10)) [
      | inl e ↦ rw e next
      | inr e ↦ rw e (decimal_on-digits f (n / 10) ((b'0' + n % 10) ∷ acc) next)
    ]

parse_u16-digits :
    (s : Str) → all is_digit s ≡ true → is_nil s ≡ false → parse_u16 s ≡ digits_on 0 s
unfolding parse_u16 digits all is_digit
parse_u16-digits [] h ne = cc
parse_u16-digits (c ∷ s) h ne = ground arith

digits-Free : (s : Str) → all is_digit s ≡ true → Free b':' s
unfolding all is_digit
digits-Free [] h = refl
digits-Free (c ∷ s) h = ground (arith, digits-Free s)

decimal_on-nonempty : (f n c : ℕ) (acc : Str) → is_nil (decimal_on f n (c ∷ acc)) ≡ false
unfolding decimal_on
decimal_on-nonempty zero n c acc = refl
decimal_on-nonempty (suc f) n c acc =
    ground (arith, decimal_on-nonempty f (n / 10) (b'0' + n % 10) (c ∷ acc))

decimal-nonempty : (n : ℕ) → is_nil (decimal n) ≡ false
unfolding decimal decimal_on
decimal-nonempty n = elim (Bool-cases (ltb n 10)) [
  | inl e ↦ rw e refl
  | inr e ↦ rw e (decimal_on-nonempty 4 (n / 10) (b'0' + n % 10) [])
]

decimal-digits : (n : ℕ) → all is_digit (decimal n) ≡ true
unfolding decimal all
decimal-digits n = decimal_on-digits 5 n [] refl

parse_u16-decimal : (n : ℕ) → n < 65536 → parse_u16 (decimal n) ≡ some n
unfolding decimal digits_on
parse_u16-decimal n h =
    parse_u16-digits (decimal n) (decimal-digits n) (decimal-nonempty n)
    ∙ digits_on-decimal 5 n [] (omega arith) h

protocol-Free : (p : Str) → is_protocol p ≡ true → Free b':' p
unfolding is_protocol all
protocol-Free p h = elim (Bool-cases (str_eq p (codes "http"))) [
  | inl e ↦ rw ((str_eq_iff p (codes "http")).0 e) refl
  | inr n1 ↦ elim (Bool-cases (str_eq p (codes "https"))) [
    | inl e ↦ rw ((str_eq_iff p (codes "https")).0 e) refl
    | inr n2 ↦ elim (Bool-cases (str_eq p (codes "h2c"))) [
      | inl e ↦ rw ((str_eq_iff p (codes "h2c")).0 e) refl
      | inr n3 ↦ rw ((str_eq_iff p (codes "tcp")).0 (ground (arith, h, n1, n2, n3))) refl
    ]
  ]
]

-- A key as the parser lets it through.
pub record IsValid (key : ServicePortKey) : Type 0 where
  pub named : is_nil key.service ≡ false
  pub positive : key.target_port ≢ 0
  pub small : key.target_port < 65536
  pub known : is_protocol key.protocol ≡ true

pub append_assoc : (r s t : Str) → (r ++ s) ++ t ≡ r ++ (s ++ t)
append_assoc [] s t = refl
append_assoc (c ∷ r) s t = ap (λ u. c ∷ u) (append_assoc r s t)

-- Parsing the printed form of a valid key, one with a service name of any characters, a port from 1
-- to 65535 and a known protocol, gives the key back.
pub from_str-to_string : (key : ServicePortKey) → IsValid key → from_str (to_string key) ≡ some key
unfolding from_str to_string checked_key
from_str-to_string key v =
    let port = decimal key.target_port in
    let outer : rsplit_once b':' (key.service ++ (b':' ∷ (port ++ (b':' ∷ key.protocol))))
        ≡ some (key.service ++ (b':' ∷ port), key.protocol) =
      ap (rsplit_once b':') (sym (append_assoc key.service (b':' ∷ port) (b':' ∷ key.protocol)))
      ∙ rsplit_once-last b':' (key.service ++ (b':' ∷ port)) key.protocol
          (protocol-Free key.protocol v.known) in
    let inner : rsplit_once b':' (key.service ++ (b':' ∷ port)) ≡ some (key.service, port) =
      rsplit_once-last b':' key.service port (digits-Free port (decimal-digits key.target_port)) in
    let nonzero : (key.target_port == 0) ≡ false = ground (arith, v.positive) in
    rw
      (from_str, outer, inner, parse_u16-decimal key.target_port v.small, v.named, nonzero, v.known)
      refl
