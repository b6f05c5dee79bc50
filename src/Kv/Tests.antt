-- ===== src/Kv/Tests.antt =====
-- Runs of the store on small tables.
use swarmlite.Base.Scan.{strip_prefix, split_once_char, trim, trim_start, is_whitespace}
use swarmlite.Base.{
  ℕ, ◌≤◌, Bool, List, any, all, str_lt, if◌then◌else◌, ◌≡◌, ◌⊎◌, refl, true, false, Option, none,
  some, [], ◌∷◌, ◌<◌, arith, Str, codes, filter, str_eq,
}
use swarmlite.Base.Map.{BTreeMap, get, insert, remove, update, keys}
use swarmlite.Kv.Keys.{
  join_path, keys_at, is_component_descendant, in_range, validate_key, validate_query_path,
  utf8_len, split, Validated, KeyError, ends_with_char, starts_with_char,
}
use swarmlite.Kv.Keys.Descendants.{is_at_or_below, keys_at_lem}
use swarmlite.Kv.Store.{
  KvObject, delete, list, stat, drop_chars, list_entries, add_entries, add_prefixes, set_add,
  relative_key,
}
use swarmlite.Kv.Store.Deleted.{delete_recursive}
use swarmlite.Kv.Objects.{put_kv}
use swarmlite.Kv.Objects.Stored.{IsStored, put_kv-IsStored}
use swarmlite.Kv.Locks.{
  ControllerError, Response, Done, KvLock, LockTables, KvLockStatus, StorageResult, LockStep, run,
  acquire_lock, renew_lock, release_lock, grant, extend_lease, is_renewable, KvLockAcquireRequest,
  acquire_kv_lock, validate_kv_lock_identity, validate_kv_lock_lease, lease_deadline, into_response,
}
use swarmlite.Kv.Locks.Fencing.{fencing_tokens_grow}
use swarmlite.Kv.Locks.Leases.{lease_is_exclusive}
use swarmlite.Kv.Locks.Outcome.{IsHonoured, granted_answer, acquire_kv_lock-IsHonoured}

abbrev objects : BTreeMap KvObject
objects =
    (codes "a", record { value = 1 ∷ []; modified_at_unix_ms = 5 })
    ∷ (codes "a/b", record { value = 1 ∷ 2 ∷ []; modified_at_unix_ms = 9 })
    ∷ (codes "a/b/c", record { value = []; modified_at_unix_ms = 7 })
    ∷ (codes "ab", record { value = 3 ∷ []; modified_at_unix_ms = 6 })
    ∷ []

validated : validate_key (codes "a//b") ≡ Validated.err KeyError.bad_components
unfolding validate_key validate_query_path utf8_len starts_with_char ends_with_char split any
validated = refl

listed : list objects (codes "a") false ≡ some (codes "a/b" ∷ [])
unfolding list keys_at filter keys in_range str_eq str_lt is_component_descendant strip_prefix
    list_entries add_entries relative_key drop_chars split_once_char set_add join_path
listed = refl

listed_below :
    list objects [] true ≡ some (codes "a" ∷ codes "a/b" ∷ codes "a/b/c" ∷ codes "ab" ∷ [])
unfolding list keys_at filter keys in_range str_eq str_lt is_component_descendant strip_prefix
    list_entries add_entries add_prefixes split relative_key drop_chars set_add join_path
listed_below = refl

keys_at_example : keys_at objects (codes "a") ≡ filter (is_at_or_below (codes "a")) (keys objects)
keys_at_example = keys_at_lem objects (codes "a")

delete_recursive_example :
    ((j : Str)
      → get (delete objects (codes "a") true) j
        ≡ (if is_at_or_below (codes "a") j then none else get objects j))
    × ((recursive : Bool) → list (delete objects (codes "a") true) (codes "a") recursive ≡ none)
    × (stat (delete objects (codes "a") true) (codes "a") ≡ none)
delete_recursive_example = delete_recursive objects b'a' []

abbrev first_steps : List LockStep
first_steps = LockStep.acquire (codes "issue") (codes "one") 0 1000 ∷ []

abbrev later_steps : List LockStep
later_steps =
    LockStep.renew (codes "issue") (codes "two") 2 2500 4000
    ∷ LockStep.release (codes "issue") (codes "two") 2
    ∷ []

fencing_tokens_grow_example : 2 < 3
unfolding acquire_lock renew_lock release_lock grant extend_lease is_renewable get insert update
    remove str_eq
fencing_tokens_grow_example =
    fencing_tokens_grow first_steps later_steps (codes "issue") (codes "two") (codes "one") 2000
      3000 2600 5000 2 3 refl refl refl

abbrev held_row : KvLock
held_row = record { owner_id = codes "one"; fencing_token = 1; lease_until_unix_ms = 1000 }

abbrev held_tables : LockTables
held_tables = record { locks = (codes "issue", held_row) ∷ []; next_fencing_token = 1 }

abbrev foreign_steps : List LockStep
foreign_steps =
    LockStep.acquire (codes "other") (codes "two") 5 1500
    ∷ LockStep.release (codes "issue") (codes "two") 1
    ∷ []

lease_is_exclusive_example :
    (get (run held_tables foreign_steps).locks (codes "issue") ≡ some held_row)
    × ((wait : ℕ) × (100 ≤ wait)
        × (wait ≤ 1000)
        × (acquire_lock (run held_tables foreign_steps) (codes "issue") (codes "two") 400 2000 ≡ (
          run held_tables foreign_steps,
          StorageResult.ok (record {
            status = KvLockStatus.busy;
            fencing_token = none;
            lease_until_unix_ms = some 1000;
            retry_after_millis = some wait;
          }),
        )))
unfolding get all str_eq
lease_is_exclusive_example =
    lease_is_exclusive (codes "issue") held_row held_tables foreign_steps (codes "two") 400 2000
      refl refl refl (omega arith)

abbrev lock_request : KvLockAcquireRequest
lock_request = record { name = codes "issue"; owner_id = codes "two"; lease_millis = 3000 }

acquire_kv_lock-IsHonoured_example :
    IsHonoured lock_request 1200 2 (acquire_kv_lock held_tables lock_request 1200)
unfolding acquire_kv_lock validate_kv_lock_identity validate_kv_lock_lease lease_deadline
    into_response granted_answer acquire_lock grant get insert str_eq utf8_len trim trim_start
    is_whitespace
acquire_kv_lock-IsHonoured_example = acquire_kv_lock-IsHonoured held_tables lock_request 1200 2 refl

-- A codec that takes the bytes as they are.
abbrev raw : Str → Option (List ℕ)
raw text = some text

put_kv-IsStored_example :
    let out = put_kv raw objects (codes "a/n") (codes "xyz") 12 in
    ((e : ControllerError) × (out ≡ (objects, Response.err e)))
    ⊎ ((out.1 ≡ Response.ok Done.done)
        × IsStored (λ v. v) (codes "a/n") (raw (codes "xyz")) 12 out.0)
put_kv-IsStored_example = put_kv-IsStored raw (λ v. v) objects (codes "a/n") (codes "xyz") 12
