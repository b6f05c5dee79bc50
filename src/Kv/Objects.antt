-- ===== src/Kv/Objects.antt =====
-- kv.rs: `decode_put`, and the handlers of controller/kv_store.rs for objects. `decode` and `encode`
-- are the base64 engine's.
pub mod Stored
use swarmlite.Base.{ℕ, Bool, true, false, Option, none, some, List, if◌then◌else◌, ltb, length, Str}
use swarmlite.Base.Map.{BTreeMap}
use swarmlite.Kv.Keys.{KeyError, Validated, validate_key, validate_query_path}
use swarmlite.Kv.Store.{
  KvObject, KvObjectResponse, KvStatResponse, put, delete, get_object, list, stat,
}
use swarmlite.Kv.Locks.{ControllerError, Response, Done}

abbrev pub max_object_bytes : ℕ
max_object_bytes = 4194304

-- `ok_or_else` with a not-found error.
abbrev found_or {ℓ} : {A : Type ℓ} → Option A → Response A
found_or none = Response.err ControllerError.not_found
found_or (some a) = Response.ok a

module _ (decode : Str → Option (List ℕ)) where
  unfoldable pub decode_put : Str → Str → Response (List ℕ)
  decode_put key value_base64 = elim (validate_key key) [
    | Validated.err e ↦ Response.err ControllerError.invalid
    | Validated.ok ↦ elim (decode value_base64) [
      | none ↦ Response.err ControllerError.invalid
      | some value ↦
          if ltb max_object_bytes (length value)
          then Response.err ControllerError.invalid
          else Response.ok value
    ]
  ]

  unfoldable pub put_kv : BTreeMap KvObject → Str → Str → ℕ → BTreeMap KvObject × Response Done
  put_kv objects key value_base64 now = elim (decode_put key value_base64) [
    | Response.err e ↦ (objects, Response.err e)
    | Response.ok value ↦ (put objects key value now, Response.ok Done.done)
  ]

unfoldable pub delete_kv : BTreeMap KvObject → Str → Bool → BTreeMap KvObject × Response Done
delete_kv objects key recursive = elim (validate_key key) [
  | Validated.err e ↦ (objects, Response.err ControllerError.invalid)
  | Validated.ok ↦ (delete objects key recursive, Response.ok Done.done)
]

unfoldable pub kv_object : (List ℕ → Str) → BTreeMap KvObject → Str → Response KvObjectResponse
kv_object encode objects key = elim (validate_key key) [
  | Validated.err e ↦ Response.err ControllerError.invalid
  | Validated.ok ↦ found_or (get_object encode objects key)
]

unfoldable pub list_kv : BTreeMap KvObject → Str → Bool → Response (List Str)
list_kv objects path recursive = elim (validate_query_path path) [
  | Validated.err e ↦ Response.err ControllerError.invalid
  | Validated.ok ↦ found_or (list objects path recursive)
]

unfoldable pub stat_kv : BTreeMap KvObject → Str → Response KvStatResponse
stat_kv objects key = elim (validate_query_path key) [
  | Validated.err e ↦ Response.err ControllerError.invalid
  | Validated.ok ↦ found_or (stat objects key)
]
