-- ===== src/Kv/Locks/Table.antt =====
-- kv.rs: `acquire_lock`, `renew_lock` and `release_lock`.
use swarmlite.Base.{
  ℕ, ◌+◌, ◌-◌, min, max, Bool, true, false, Option, none, some, List, [], ◌∷◌, ◌&&◌, if◌then◌else◌,
  ltb, ◌==◌, Str, str_eq,
}
use swarmlite.Base.Map.{BTreeMap, get, insert, remove, update}

pub record KvLock : Type 0 where
  pub owner_id : Str
  pub fencing_token : ℕ
  pub lease_until_unix_ms : ℕ

pub record LockTables : Type 0 where
  pub locks : BTreeMap KvLock
  pub next_fencing_token : ℕ

abbrev pub no_locks : LockTables
no_locks = record { locks = []; next_fencing_token = 0 }

pub data KvLockStatus : Type 0 where
  acquired busy : KvLockStatus

pub record KvLockAcquireResponse : Type 0 where
  pub status : KvLockStatus
  pub fencing_token : Option ℕ
  pub lease_until_unix_ms : Option ℕ
  pub retry_after_millis : Option ℕ

pub data StorageError : Type 0 where
  backend invalid_data : StorageError

pub data StorageResult {ℓ} (A : Type ℓ) : Type ℓ where
  ok : A → StorageResult A
  err : StorageError → StorageResult A

abbrev pub i64_limit : ℕ
i64_limit = 0x8000000000000000

abbrev pub acquired_response : ℕ → ℕ → KvLockAcquireResponse
acquired_response token deadline = record {
  status = KvLockStatus.acquired;
  fencing_token = some token;
  lease_until_unix_ms = some deadline;
  retry_after_millis = none;
}

abbrev pub busy_response : ℕ → ℕ → KvLockAcquireResponse
busy_response deadline now = record {
  status = KvLockStatus.busy;
  fencing_token = none;
  lease_until_unix_ms = some deadline;
  retry_after_millis = some (max 100 (min 1000 (deadline - now)));
}

-- A new token from `kv_meta`, and the row of the lock with it.
unfoldable pub grant : LockTables → Str → Str → ℕ → LockTables × StorageResult KvLockAcquireResponse
grant tables name owner_id lease_until =
    let token = tables.next_fencing_token + 1 in
    if ltb token i64_limit
    then (
      record {
        locks =
            insert name
              (record {
                owner_id = owner_id;
                fencing_token = token;
                lease_until_unix_ms = lease_until;
              })
              tables.locks;
        next_fencing_token = token;
      },
      StorageResult.ok (acquired_response token lease_until),
    )
    else (tables, StorageResult.err StorageError.backend)

unfoldable pub extend_lease : ℕ → KvLock → KvLock
extend_lease lease_until row = record row { lease_until_unix_ms = lease_until }

unfoldable pub acquire_lock :
    LockTables → Str → Str → ℕ → ℕ → LockTables × StorageResult KvLockAcquireResponse
acquire_lock tables name owner_id now lease_until = elim (get tables.locks name) [
  | none ↦ grant tables name owner_id lease_until
  | some row ↦
      if ltb now row.lease_until_unix_ms
      then if str_eq row.owner_id owner_id
        then (
          record tables { locks = update name (extend_lease lease_until) tables.locks },
          StorageResult.ok (acquired_response row.fencing_token lease_until),
        )
        else (tables, StorageResult.ok (busy_response row.lease_until_unix_ms now))
      else grant tables name owner_id lease_until
]

-- The rows that the `UPDATE` of a renewal matches.
unfoldable pub is_renewable : Str → ℕ → ℕ → KvLock → Bool
is_renewable owner_id token now row =
    str_eq row.owner_id owner_id && row.fencing_token == token && ltb now row.lease_until_unix_ms

unfoldable pub renew_lock : LockTables → Str → Str → ℕ → ℕ → ℕ → LockTables × StorageResult Bool
renew_lock tables name owner_id token now lease_until =
    if ltb token i64_limit
    then elim (get tables.locks name) [
      | none ↦ (tables, StorageResult.ok false)
      | some row ↦
          if is_renewable owner_id token now row
          then (
            record tables { locks = update name (extend_lease lease_until) tables.locks },
            StorageResult.ok true,
          )
          else (tables, StorageResult.ok false)
    ]
    else (tables, StorageResult.err StorageError.invalid_data)

unfoldable pub release_lock : LockTables → Str → Str → ℕ → LockTables × StorageResult Bool
release_lock tables name owner_id token =
    if ltb token i64_limit
    then elim (get tables.locks name) [
      | none ↦ (tables, StorageResult.ok true)
      | some row ↦
          if str_eq row.owner_id owner_id && row.fencing_token == token
          then (record tables { locks = remove name tables.locks }, StorageResult.ok true)
          else (tables, StorageResult.ok false)
    ]
    else (tables, StorageResult.err StorageError.invalid_data)

-- The three operations as steps on the tables.
pub data LockStep : Type 0 where
  acquire : Str → Str → ℕ → ℕ → LockStep
  renew : Str → Str → ℕ → ℕ → ℕ → LockStep
  release : Str → Str → ℕ → LockStep

abbrev pub step : LockTables → LockStep → LockTables
step tables (LockStep.acquire name owner_id now lease_until) =
    (acquire_lock tables name owner_id now lease_until).0
step tables (LockStep.renew name owner_id token now lease_until) =
    (renew_lock tables name owner_id token now lease_until).0
step tables (LockStep.release name owner_id token) = (release_lock tables name owner_id token).0

abbrev pub run : LockTables → List LockStep → LockTables
run tables [] = tables
run tables (s ∷ steps) = run (step tables s) steps
