-- ===== src/Operations/Tokens.antt =====
-- crates/swarmlite-core/src/service_operations.rs: `expiry_from_duration` and `DeployToken::active`.
use mathlib.Core.Option
use swarmlite.Base.{
  ℕ, ◌+◌, ◌-◌, ◌*◌, ◌<◌, ◌≡◌, refl, sym, Bool, true, false, Option, none, some, [], ◌∷◌, ◌&&◌,
  arith, inl, inr, if◌then◌else◌, ltb, leb, ◌==◌, is_none, is_none_or, Bool-cases, Option-cases,
  Str, codes, str_eq,
}
pub mod Expiry

pub record DeployToken : Type 0 where
  pub id : Str
  pub name : Str
  pub service_id : Str
  pub created_at_unix_ms : ℕ
  pub expires_at_unix_ms : Option ℕ
  pub revoked_at_unix_ms : Option ℕ
  pub token : Option Str

unfoldable pub token_active : DeployToken → ℕ → Bool
token_active token now =
    is_none token.revoked_at_unix_ms
    && is_none_or token.expires_at_unix_ms (λ expiry. ltb now expiry)

-- `str::strip_suffix` with a character.
unfoldable pub strip_last : ℕ → Str → Option Str
strip_last d [] = none
strip_last d (c ∷ []) = if c == d then some [] else none
strip_last d (c ∷ e ∷ s) = Option.map (λ front. c ∷ front) (strip_last d (e ∷ s))

-- The number before a unit, and the unit in milliseconds.
unfoldable pub unit_of : Str → Option (Str × ℕ)
unit_of value = elim (strip_last b'd' value) [
  | some number ↦ some (number, 86400000)
  | none ↦ elim (strip_last b'h' value) [
    | some number ↦ some (number, 3600000)
    | none ↦ elim (strip_last b'm' value) [
      | some number ↦ some (number, 60000)
      | none ↦ Option.map (λ number. (number, 1000)) (strip_last b's' value)
    ]
  ]
]

-- ASCII digits only.
unfoldable pub number_on : ℕ → Str → Option ℕ
number_on value [] = some value
number_on value (c ∷ s) =
    let rest = number_on (value * 10 + (c - b'0')) s in
    if leb b'0' c && leb c b'9' then rest else none

abbrev i64_limit : ℕ
i64_limit = 0x8000000000000000

-- `number.parse::<i64>()` of at least one digit.
unfoldable pub parse_count : Str → Option ℕ
parse_count [] = none
parse_count (c ∷ s) = elim (number_on 0 (c ∷ s)) [
  | none ↦ none
  | some count ↦ if ltb count i64_limit then some count else none
]

-- `checked_mul` and `checked_add` of a count that is not zero.
unfoldable pub checked_expiry : ℕ → ℕ → ℕ → Option (Option ℕ)
checked_expiry count multiplier now =
    if count == 0
    then none
    else if ltb (count * multiplier) i64_limit && ltb (now + count * multiplier) i64_limit
    then some (some (now + count * multiplier))
    else none

-- An error is `none`, and `never` is `some none`.
unfoldable pub expiry_from_duration : Str → ℕ → Option (Option ℕ)
expiry_from_duration value now =
    if str_eq value (codes "never") then some none else elim (unit_of value) [
      | none ↦ none
      | some (number, multiplier) ↦ elim (parse_count number) [
        | none ↦ none
        | some count ↦ checked_expiry count multiplier now
      ]
    ]
