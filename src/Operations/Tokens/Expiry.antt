-- ===== src/Operations/Tokens/Expiry.antt =====
-- service_operations.rs: the expiry of a new token.
use mathlib.Core.Option
use native.Mathlib.Nat.{mul-pos}
use swarmlite.Base.{
  ℕ, ◌+◌, ◌*◌, ◌<◌, ◌≤◌, ◌≡◌, refl, subst, ap, Bool, true, false, Option, none, some, ◌&&◌, arith,
  inl, inr, ltb, ◌==◌, is_none, is_none_or, ◌∙◌, Bool-cases, Option-cases, Str, codes, str_eq,
}
use swarmlite.Operations.Tokens.{
  DeployToken, token_active, strip_last, unit_of, parse_count, checked_expiry, expiry_from_duration,
}

-- After `now`, and below 2 ^ 63.
abbrev pub is_future : ℕ → Option ℕ → Bool
is_future now expiry = is_none_or expiry (λ t. ltb now t && ltb t 0x8000000000000000)

-- The multiplier of a pair that is known.
big :
    {n number : Str} {multiplier : ℕ} (k : ℕ)
    → ◌≡◌ {A = Option (Str × ℕ)} (some (n, k)) (some (number, multiplier))
    → 1000 ≤ k
    → 1000 ≤ multiplier
big k h l = subst (λ m. 1000 ≤ m) (ap (λ p. p.1) (Option.some-injective _ _ h)) l

unit_of-positive :
    (value number : Str) (multiplier : ℕ)
    → unit_of value ≡ some (number, multiplier)
    → 1000 ≤ multiplier
unfolding unit_of
unit_of-positive value number multiplier = elim (Option-cases (strip_last b'd' value)) [
  | inr (n, e) ↦ rw (unit_of, e) (λ h. big 86400000 h (omega arith))
  | inl d ↦ elim (Option-cases (strip_last b'h' value)) [
    | inr (n, e) ↦ rw (unit_of, d, e) (λ h. big 3600000 h (omega arith))
    | inl k ↦ elim (Option-cases (strip_last b'm' value)) [
      | inr (n, e) ↦ rw (unit_of, d, k, e) (λ h. big 60000 h (omega arith))
      | inl m ↦ elim (Option-cases (strip_last b's' value)) [
        | inr (n, e) ↦ rw (unit_of, d, k, m, e) (λ h. big 1000 h (omega arith))
        | inl s ↦ rw (unit_of, d, k, m, s) (λ h. cc)
      ]
    ]
  ]
]

-- A positive duration ends later.
later :
    (count multiplier now : ℕ)
    → 1000 ≤ multiplier
    → (count == 0) ≡ false
    → (ltb (count * multiplier) 0x8000000000000000
        && ltb (now + count * multiplier) 0x8000000000000000)
      ≡ true
    → is_future now (some (now + count * multiplier)) ≡ true
later count multiplier now m c fits =
    let positive : 0 < count * multiplier = mul-pos (ground (arith, c)) (omega (arith, m)) in
    ground (arith, positive, fits)

checked_expiry-future :
    (count multiplier now : ℕ) (expiry : Option ℕ)
    → 1000 ≤ multiplier
    → checked_expiry count multiplier now ≡ some expiry
    → is_future now expiry ≡ true
unfolding checked_expiry
checked_expiry-future count multiplier now expiry m = elim (Bool-cases (count == 0)) [
  | inl zero_count ↦ rw (checked_expiry, zero_count) (λ h. cc)
  | inr some_count ↦
      elim (Bool-cases (
        ltb (count * multiplier) 0x8000000000000000
        && ltb (now + count * multiplier) 0x8000000000000000)) [
          | inr large ↦ rw (checked_expiry, some_count, large) (λ h. cc)
          | inl fits ↦
              rw (checked_expiry, some_count, fits)
                (λ h.
                  subst (λ o. is_future now o ≡ true) (Option.some-injective _ _ h)
                    (later count multiplier now m some_count fits))
        ]
]

expiry-future :
    (value : Str) (now : ℕ) (expiry : Option ℕ)
    → expiry_from_duration value now ≡ some expiry
    → is_future now expiry ≡ true
unfolding expiry_from_duration
expiry-future value now expiry = elim (Bool-cases (str_eq value (codes "never"))) [
  | inl never ↦
      rw (expiry_from_duration, never)
        (λ h. subst (λ o. is_future now o ≡ true) (Option.some-injective _ _ h) refl)
  | inr lasting ↦ elim (Option-cases (unit_of value)) [
    | inl bad ↦ rw (expiry_from_duration, lasting, bad) (λ h. cc)
    | inr ((number, multiplier), e) ↦ elim (Option-cases (parse_count number)) [
      | inl bad ↦ rw (expiry_from_duration, lasting, e, bad) (λ h. cc)
      | inr (count, k) ↦
          rw (expiry_from_duration, lasting, e, k)
            (checked_expiry-future count multiplier now expiry
              (unit_of-positive value number multiplier e))
    ]
  ]
]

-- When a duration text is accepted at a time, then a token with that expiry that is not revoked is
-- active at that time; and the expiry, if there is one, is after that time and below 2 ^ 63.
pub expiry-token_active :
    (value : Str) (now : ℕ) (expiry : Option ℕ) (token : DeployToken)
    → expiry_from_duration value now ≡ some expiry
    → token.expires_at_unix_ms ≡ expiry
    → token.revoked_at_unix_ms ≡ none
    → (token_active token now ≡ true) × (is_future now expiry ≡ true)
unfolding token_active
expiry-token_active value now expiry token h same fresh =
    let future = expiry-future value now expiry h in
    let alive : is_none_or token.expires_at_unix_ms (λ t. ltb now t) ≡ true =
      rw same (elim (Option-cases expiry) [
        | inl e ↦ rw e refl
        | inr (t, e) ↦ rw e (ground (arith, future, e))
      ]) in
    (
      ap (λ o. is_none o && is_none_or token.expires_at_unix_ms (λ t. ltb now t)) fresh ∙ alive,
      future,
    )
