-- ===== src/Kv/Locks/Requests.antt =====
-- controller/kv_store.rs: what the handlers check before they touch the tables.
use swarmlite.Base.{
  ℕ, ◌+◌, Bool, true, false, Option, none, some, ◌||◌, ◌&&◌, if◌then◌else◌, ltb, leb, Str,
}
use swarmlite.Base.Scan.{trim}
use swarmlite.Kv.Keys.{utf8_len, is_empty}
use swarmlite.Kv.Locks.Table.{
  LockTables, KvLockAcquireResponse, StorageError, StorageResult, i64_limit, acquire_lock,
  renew_lock, release_lock,
}

pub data ControllerError : Type 0 where
  invalid conflict not_found : ControllerError
  storage : StorageError → ControllerError

pub data Response {ℓ} (A : Type ℓ) : Type ℓ where
  ok : A → Response A
  err : ControllerError → Response A

pub record KvLockAcquireRequest : Type 0 where
  pub name : Str
  pub owner_id : Str
  pub lease_millis : ℕ

pub record KvLockMutationRequest : Type 0 where
  pub name : Str
  pub owner_id : Str
  pub fencing_token : ℕ
  pub lease_millis : Option ℕ

-- The answer `()`.
pub data Done : Type 0 where
  done : Done

abbrev pub min_kv_lock_lease_ms : ℕ
min_kv_lock_lease_ms = 1000

abbrev pub max_kv_lock_lease_ms : ℕ
max_kv_lock_lease_ms = 300000

-- No error: the test passes.
unfoldable pub validate_kv_lock_identity : Str → Str → Option ControllerError
validate_kv_lock_identity name owner_id =
    if is_empty (trim name) || ltb 1024 (utf8_len name)
    then some ControllerError.invalid
    else if is_empty (trim owner_id) || ltb 512 (utf8_len owner_id)
    then some ControllerError.invalid
    else none

unfoldable pub validate_kv_lock_lease : ℕ → Option ControllerError
validate_kv_lock_lease lease_millis =
    if leb min_kv_lock_lease_ms lease_millis && leb lease_millis max_kv_lock_lease_ms
    then none
    else some ControllerError.invalid

-- `i64::try_from` and `checked_add`.
unfoldable pub lease_deadline : ℕ → ℕ → Response ℕ
lease_deadline now lease_millis =
    if ltb lease_millis i64_limit
    then if ltb (now + lease_millis) i64_limit
      then Response.ok (now + lease_millis)
      else Response.err ControllerError.invalid
    else Response.err ControllerError.invalid

-- `map_err(Into::into)`.
unfoldable pub into_response {ℓ} : {A : Type ℓ} → StorageResult A → Response A
into_response (StorageResult.ok a) = Response.ok a
into_response (StorageResult.err e) = Response.err (ControllerError.storage e)

-- `true` is success, and `false` a conflict.
unfoldable pub owned_or_conflict : StorageResult Bool → Response Done
owned_or_conflict (StorageResult.ok true) = Response.ok Done.done
owned_or_conflict (StorageResult.ok false) = Response.err ControllerError.conflict
owned_or_conflict (StorageResult.err e) = Response.err (ControllerError.storage e)

unfoldable pub acquire_kv_lock :
    LockTables → KvLockAcquireRequest → ℕ → LockTables × Response KvLockAcquireResponse
acquire_kv_lock tables request now =
    elim (validate_kv_lock_identity request.name request.owner_id) [
      | some e ↦ (tables, Response.err e)
      | none ↦ elim (validate_kv_lock_lease request.lease_millis) [
        | some e ↦ (tables, Response.err e)
        | none ↦ elim (lease_deadline now request.lease_millis) [
          | err e ↦ (tables, Response.err e)
          | ok deadline ↦
              let out = acquire_lock tables request.name request.owner_id now deadline in
              (out.0, into_response out.1)
        ]
      ]
    ]

unfoldable pub renew_kv_lock : LockTables → KvLockMutationRequest → ℕ → LockTables × Response Done
renew_kv_lock tables request now = elim (validate_kv_lock_identity request.name request.owner_id) [
  | some e ↦ (tables, Response.err e)
  | none ↦ elim request.lease_millis [
    | none ↦ (tables, Response.err ControllerError.invalid)
    | some lease_millis ↦ elim (validate_kv_lock_lease lease_millis) [
      | some e ↦ (tables, Response.err e)
      | none ↦ elim (lease_deadline now lease_millis) [
        | err e ↦ (tables, Response.err e)
        | ok deadline ↦
            let out =
              renew_lock tables request.name request.owner_id request.fencing_token now deadline in
            (out.0, owned_or_conflict out.1)
      ]
    ]
  ]
]

unfoldable pub release_kv_lock : LockTables → KvLockMutationRequest → LockTables × Response Done
release_kv_lock tables request = elim (validate_kv_lock_identity request.name request.owner_id) [
  | some e ↦ (tables, Response.err e)
  | none ↦
      let out = release_lock tables request.name request.owner_id request.fencing_token in
      (out.0, owned_or_conflict out.1)
]
