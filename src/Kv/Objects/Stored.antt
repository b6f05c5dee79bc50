-- ===== src/Kv/Objects/Stored.antt =====
-- controller/kv_store.rs: `put_kv` and `kv_object` after it.
use swarmlite.Base.{
  ℕ, ◌≡◌, ◌≤◌, refl, Option, some, List, arith, inl, inr, ltb, Bool-cases, Option-cases, length,
  ◌⊎◌, Str, str_eq_refl,
}
use swarmlite.Base.Map.{BTreeMap, get-insert}
use swarmlite.Kv.Keys.{KeyError, Validated, validate_key}
use swarmlite.Kv.Store.{KvObject, put, get_object}
use swarmlite.Kv.Locks.{ControllerError, Response, Done}
use swarmlite.Kv.Objects.{max_object_bytes, decode_put, put_kv, kv_object}

Validated-cases : (v : Validated) → (v ≡ Validated.ok) ⊎ ((e : KeyError) × (v ≡ Validated.err e))
Validated-cases Validated.ok = inl refl
Validated-cases (Validated.err e) = inr (e, refl)

get-put :
    (encode : List ℕ → Str) (objects : BTreeMap KvObject) (key : Str) (value : List ℕ) (now : ℕ)
    → get_object encode (put objects key value now) key
      ≡ some (record {
        key = key;
        value_base64 = encode value;
        modified_at_unix_ms = now;
        size = length value;
      })
unfolding get_object put
get-put encode objects key value now = rw (get-insert, str_eq_refl key) refl

-- What a put that is answered with success leaves.
unfoldable pub IsStored : (List ℕ → Str) → Str → Option (List ℕ) → ℕ → BTreeMap KvObject → Type 0
IsStored encode key decoded now objects =
    (value : List ℕ) × (decoded ≡ some value)
    × (length value ≤ 4194304)
    × (kv_object encode objects key
        ≡ Response.ok (record {
          key = key;
          value_base64 = encode value;
          modified_at_unix_ms = now;
          size = length value;
        }))

-- `put_kv` answers either with an error, and leaves the objects as they were, or with success; then
-- its base64 text decodes to at most 4 MiB, and reading the key after it answers with exactly that
-- value, encoded again, the time of the put and the size of the value.
pub put_kv-IsStored :
    (decode : Str → Option (List ℕ)) (encode : List ℕ → Str) (objects : BTreeMap KvObject)
    (key text : Str) (now : ℕ)
    → let out = put_kv decode objects key text now in
      ((e : ControllerError) × (out ≡ (objects, Response.err e)))
      ⊎ ((out.1 ≡ Response.ok Done.done) × IsStored encode key (decode text) now out.0)
unfolding put_kv decode_put IsStored kv_object
put_kv-IsStored decode encode objects key text now = elim (Validated-cases (validate_key key)) [
  | inr (e, bad) ↦ rw (put_kv, decode_put, bad) (inl (ControllerError.invalid, refl))
  | inl fine ↦ elim (Option-cases (decode text)) [
    | inl nothing ↦ rw (put_kv, decode_put, fine, nothing) (inl (ControllerError.invalid, refl))
    | inr (value, some_value) ↦ elim (Bool-cases (ltb max_object_bytes (length value))) [
      | inl large ↦
          rw (put_kv, decode_put, fine, some_value, large) (inl (ControllerError.invalid, refl))
      | inr small ↦
          rw (put_kv, decode_put, fine, some_value, small)
            (inr (
              refl,
              (
                value,
                refl,
                ground arith,
                rw (kv_object, fine, get-put encode objects key value now) refl,
              ),
            ))
    ]
  ]
]
