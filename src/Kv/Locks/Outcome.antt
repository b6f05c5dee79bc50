-- ===== src/Kv/Locks/Outcome.antt =====
-- controller/kv_store.rs: what the lock handlers answer and store.
use mathlib.Core.Option
use swarmlite.Base.{
  ℕ, ◌≡◌, refl, sym, ap, ◌∙◌, ◌⊎◌, true, Option, none, some, ◌+◌, ◌≤◌, ◌<◌, arith, inl, inr, ltb,
  Bool-cases, Option-cases, Str, str_eq, str_eq_refl, str_eq_iff,
}
use swarmlite.Base.Map.{get, update, get-insert, get-update}
use swarmlite.Kv.Locks.Table.{
  KvLock, LockTables, KvLockAcquireResponse, StorageResult, acquired_response, grant, extend_lease,
  acquire_lock, i64_limit,
}
use swarmlite.Kv.Locks.Fencing.{granted_token}
use swarmlite.Kv.Locks.Requests.{
  ControllerError, KvLockAcquireRequest, Response, validate_kv_lock_identity,
  validate_kv_lock_lease, lease_deadline, into_response, acquire_kv_lock,
}

-- The row of an acquired lock.
abbrev pub row_of : Str → ℕ → ℕ → KvLock
row_of owner token deadline = record {
  owner_id = owner;
  fencing_token = token;
  lease_until_unix_ms = deadline;
}

-- The lease of a request that passes validation.
lease_is_allowed : (m : ℕ) → validate_kv_lock_lease m ≡ none → (1000 ≤ m) × (m ≤ 300000)
unfolding validate_kv_lock_lease
lease_is_allowed m h = ground arith

-- The token in an answer.
unfoldable pub granted_answer : Response KvLockAcquireResponse → Option ℕ
granted_answer (Response.ok response) = response.fencing_token
granted_answer (Response.err e) = none

-- The answer holds the token and the deadline of the stored row.
IsGranted : Str → Str → ℕ → ℕ → LockTables × StorageResult KvLockAcquireResponse → Type 0
IsGranted name owner l t out =
    (out.1 ≡ StorageResult.ok (acquired_response t l))
    × (get out.0.locks name ≡ some (row_of owner t l))

module _ (tables : LockTables) (name owner : Str) where
  grant-IsGranted :
      (l t : ℕ)
      → granted_token (grant tables name owner l).1 ≡ some t
      → IsGranted name owner l t (grant tables name owner l)
  unfolding grant IsGranted
  grant-IsGranted l t = elim (Bool-cases (ltb (tables.next_fencing_token + 1) i64_limit)) [
    | inl e ↦
        rw (grant, e)
          (λ g.
            let same : t ≡ tables.next_fencing_token + 1 = Option.some-injective _ _ (sym g) in
            rw same (refl, rw (get-insert, str_eq_refl name) refl))
    | inr e ↦ rw (grant, e) (λ g. cc)
  ]

  extend-IsGranted :
      (row : KvLock) (l : ℕ)
      → get tables.locks name ≡ some row
      → str_eq row.owner_id owner ≡ true
      → get (update name (extend_lease l) tables.locks) name
        ≡ some (row_of owner row.fencing_token l)
  unfolding extend_lease
  extend-IsGranted row l e own =
      rw (get-update, str_eq_refl name, e)
        (ap (λ o. some (row_of o row.fencing_token l)) ((str_eq_iff row.owner_id owner).0 own))

  acquire-IsGranted :
      (now l t : ℕ)
      → granted_token (acquire_lock tables name owner now l).1 ≡ some t
      → IsGranted name owner l t (acquire_lock tables name owner now l)
  unfolding acquire_lock IsGranted
  acquire-IsGranted now l t = elim (Option-cases (get tables.locks name)) [
    | inl e ↦ rw (e, acquire_lock) (grant-IsGranted l t)
    | inr (row, e) ↦ elim (Bool-cases (ltb now row.lease_until_unix_ms)) [
      | inl live ↦ elim (Bool-cases (str_eq row.owner_id owner)) [
        | inl own ↦
            rw (e, acquire_lock, live, own)
              (λ g.
                let same : t ≡ row.fencing_token = Option.some-injective _ _ (sym g) in
                rw same (refl, extend-IsGranted row l e own))
        | inr other ↦ rw (e, acquire_lock, live, other) (λ g. cc)
      ]
      | inr over ↦ rw (e, acquire_lock, over) (grant-IsGranted l t)
    ]
  ]

abbrev outcome :
    LockTables × StorageResult KvLockAcquireResponse → LockTables × Response KvLockAcquireResponse
outcome out = (out.0, into_response out.1)

-- What a granted request guarantees.
unfoldable pub IsHonoured :
    KvLockAcquireRequest → ℕ → ℕ → LockTables × Response KvLockAcquireResponse → Type 0
IsHonoured request now t out =
    (1000 ≤ request.lease_millis)
    × (request.lease_millis ≤ 300000)
    × (now + request.lease_millis < 0x8000000000000000)
    × (out.1 ≡ Response.ok (acquired_response t (now + request.lease_millis)))
    × (get out.0.locks request.name ≡ some (row_of request.owner_id t (now + request.lease_millis)))

granted_answer-into :
    (r : StorageResult KvLockAcquireResponse) → granted_answer (into_response r) ≡ granted_token r
unfolding granted_answer into_response
granted_answer-into (StorageResult.ok a) = refl
granted_answer-into (StorageResult.err e) = refl

lease_deadline-cases :
    (now m : ℕ)
    → ((lease_deadline now m ≡ Response.ok (now + m)) × (now + m < 0x8000000000000000))
      ⊎ (lease_deadline now m ≡ Response.err ControllerError.invalid)
unfolding lease_deadline
lease_deadline-cases now m = elim (Bool-cases (ltb m i64_limit)) [
  | inr e ↦ inr (rw e refl)
  | inl e ↦ elim (Bool-cases (ltb (now + m) i64_limit)) [
    | inl k ↦ inl (rw (e, k) refl, ground arith)
    | inr k ↦ inr (rw (e, k) refl)
  ]
]

-- When the handler answers an acquisition with a token, the requested lease was between 1 and 300
-- seconds, the deadline `now + lease` fits an `i64`, the answer carries the token and that deadline,
-- and the stored row of the lock has exactly the requesting owner, that token and that deadline.
pub acquire_kv_lock-IsHonoured :
    (tables : LockTables) (request : KvLockAcquireRequest) (now t : ℕ)
    → granted_answer (acquire_kv_lock tables request now).1 ≡ some t
    → IsHonoured request now t (acquire_kv_lock tables request now)
unfolding acquire_kv_lock granted_answer IsHonoured IsGranted into_response
acquire_kv_lock-IsHonoured tables request now t =
    elim (Option-cases (validate_kv_lock_identity request.name request.owner_id)) [
      | inr (e, bad) ↦ rw (acquire_kv_lock, bad) (λ g. cc)
      | inl fine ↦ elim (Option-cases (validate_kv_lock_lease request.lease_millis)) [
        | inr (e, bad) ↦ rw (acquire_kv_lock, fine, bad) (λ g. cc)
        | inl allowed ↦ elim (lease_deadline-cases now request.lease_millis) [
          | inr bad ↦ rw (acquire_kv_lock, fine, allowed, bad) (λ g. cc)
          | inl (d, small) ↦
              rw (acquire_kv_lock, fine, allowed, d)
                (λ g.
                  let lease = lease_is_allowed request.lease_millis allowed in
                  let deadline = now + request.lease_millis in
                  let out = acquire_lock tables request.name request.owner_id now deadline in
                  let stored =
                    acquire-IsGranted tables request.name request.owner_id now deadline t
                      (sym (granted_answer-into out.1) ∙ g) in
                  (lease.0, lease.1, small, ap into_response stored.0, stored.1))
        ]
      ]
    ]
