-- ===== src/Kv/Locks/Fencing.antt =====
-- kv.rs: the fencing tokens of successive owners of a lock.
use mathlib.Core.Option
use swarmlite.Base.{
  sym, ◌==◌, str_eq_refl, ℕ, ◌+◌, ◌<◌, ◌≡◌, refl, Bool, true, false, Option, none, some, List, [],
  ◌∷◌, ◌&&◌, ◌||◌, arith, inl, inr, ltb, leb, is_none_or, Option-cases, Bool-cases, Str, str_eq,
  str_eq_iff,
}
use swarmlite.Base.Map.{get, get-insert, get-remove, get-update, insert, update, remove}
use swarmlite.Kv.Locks.Table.{
  i64_limit, KvLock, LockTables, no_locks, KvLockAcquireResponse, StorageResult, grant,
  extend_lease, acquire_lock, renew_lock, release_lock, is_renewable, LockStep, step, run,
}

-- The token that an acquisition returned.
abbrev pub granted_token : StorageResult KvLockAcquireResponse → Option ℕ
granted_token (StorageResult.ok response) = response.fencing_token
granted_token (StorageResult.err e) = none

module _ (name owner : Str) (t : ℕ) where
  -- The row of the lock is the owner's, or has a token after `t`.
  abbrev row_is_after : ℕ → KvLock → Bool
  row_is_after next row =
      leb row.fencing_token next && (str_eq row.owner_id owner || ltb t row.fencing_token)

  -- Token `t` has been given to the owner, and every later owner has a later one.
  abbrev pub is_past : LockTables → Bool
  is_past tables =
      leb t tables.next_fencing_token
      && is_none_or (get tables.locks name) (row_is_after tables.next_fencing_token)

  -- The row of a new token.
  is_past-new :
      (tables : LockTables) (n o : Str) (l : ℕ)
      → is_past tables ≡ true
      → is_past (record {
        locks =
            insert n
              (record {
                owner_id = o;
                fencing_token = tables.next_fencing_token + 1;
                lease_until_unix_ms = l;
              })
              tables.locks;
        next_fencing_token = tables.next_fencing_token + 1;
      })
        ≡ true
  is_past-new tables n o l h = rw get-insert (elim (Option-cases (get tables.locks name)) [
    | inl e ↦ rw e (ground (arith, e))
    | inr (row, e) ↦ rw e (ground (arith, e))
  ])

  -- What each operation keeps.
  is_past-grant :
      (tables : LockTables) (n o : Str) (l : ℕ)
      → is_past tables ≡ true
      → is_past (grant tables n o l).0 ≡ true
  unfolding grant
  is_past-grant tables n o l h = elim (Bool-cases (ltb (tables.next_fencing_token + 1) i64_limit)) [
    | inl e ↦ rw e (is_past-new tables n o l h)
    | inr e ↦ rw e h
  ]

  is_past-extend :
      (tables : LockTables) (n : Str) (l : ℕ)
      → is_past tables ≡ true
      → is_past (record tables { locks = update n (extend_lease l) tables.locks }) ≡ true
  unfolding extend_lease
  is_past-extend tables n l h = rw get-update (elim (Option-cases (get tables.locks name)) [
    | inl e ↦ rw e (ground (arith, e))
    | inr (row, e) ↦ rw e (ground (arith, e))
  ])

  is_past-remove :
      (tables : LockTables) (n : Str)
      → is_past tables ≡ true
      → is_past (record tables { locks = remove n tables.locks }) ≡ true
  is_past-remove tables n h = rw get-remove (ground arith)

  is_past-acquire :
      (tables : LockTables) (n o : Str) (now l : ℕ)
      → is_past tables ≡ true
      → is_past (acquire_lock tables n o now l).0 ≡ true
  unfolding acquire_lock
  is_past-acquire tables n o now l h = elim (Option-cases (get tables.locks n)) [
    | inl e ↦ rw (e, acquire_lock) (is_past-grant tables n o l h)
    | inr (row, e) ↦ elim (Bool-cases (ltb now row.lease_until_unix_ms)) [
      | inl live ↦ elim (Bool-cases (str_eq row.owner_id o)) [
        | inl own ↦ rw (e, acquire_lock, live, own) (is_past-extend tables n l h)
        | inr other ↦ rw (e, acquire_lock, live, other) h
      ]
      | inr over ↦ rw (e, acquire_lock, over) (is_past-grant tables n o l h)
    ]
  ]

  is_past-renew :
      (tables : LockTables) (n o : Str) (k now l : ℕ)
      → is_past tables ≡ true
      → is_past (renew_lock tables n o k now l).0 ≡ true
  unfolding renew_lock
  is_past-renew tables n o k now l h = elim (Bool-cases (ltb k i64_limit)) [
    | inr large ↦ rw (renew_lock, large) h
    | inl small ↦ elim (Option-cases (get tables.locks n)) [
      | inl e ↦ rw (renew_lock, small, e) h
      | inr (row, e) ↦ elim (Bool-cases (is_renewable o k now row)) [
        | inl live ↦ rw (renew_lock, small, e, live) (is_past-extend tables n l h)
        | inr not_live ↦ rw (renew_lock, small, e, not_live) h
      ]
    ]
  ]

  is_past-release :
      (tables : LockTables) (n o : Str) (k : ℕ)
      → is_past tables ≡ true
      → is_past (release_lock tables n o k).0 ≡ true
  unfolding release_lock
  is_past-release tables n o k h = elim (Bool-cases (ltb k i64_limit)) [
    | inr large ↦ rw (release_lock, large) h
    | inl small ↦ elim (Option-cases (get tables.locks n)) [
      | inl e ↦ rw (release_lock, small, e) h
      | inr (row, e) ↦ elim (Bool-cases (str_eq row.owner_id o && row.fencing_token == k)) [
        | inl own ↦ rw (release_lock, small, e, own) (is_past-remove tables n h)
        | inr other ↦ rw (release_lock, small, e, other) h
      ]
    ]
  ]

  is_past-step :
      (tables : LockTables) (s : LockStep) → is_past tables ≡ true → is_past (step tables s) ≡ true
  is_past-step tables (LockStep.acquire n o now l) h = is_past-acquire tables n o now l h
  is_past-step tables (LockStep.renew n o k now l) h = is_past-renew tables n o k now l h
  is_past-step tables (LockStep.release n o k) h = is_past-release tables n o k h

  is_past-run :
      (tables : LockTables) (steps : List LockStep)
      → is_past tables ≡ true
      → is_past (run tables steps) ≡ true
  is_past-run tables [] h = h
  is_past-run tables (s ∷ steps) h = is_past-run (step tables s) steps (is_past-step tables s h)

-- A new token is the next one.
granted-next :
    (tables : LockTables) (n o : Str) (l u : ℕ)
    → granted_token (grant tables n o l).1 ≡ some u
    → u ≡ tables.next_fencing_token + 1
unfolding grant
granted-next tables n o l u = elim (Bool-cases (ltb (tables.next_fencing_token + 1) i64_limit)) [
  | inl e ↦ rw (grant, e) (λ g. Option.some-injective _ _ (sym g))
  | inr e ↦ rw (grant, e) (λ g. cc)
]

module _ (name owner : Str) where
  is_past-granted-new :
      (tables : LockTables) (l t : ℕ)
      → is_past name owner 0 tables ≡ true
      → granted_token (grant tables name owner l).1 ≡ some t
      → (is_past name owner t (grant tables name owner l).0 ≡ true)
        × (t ≡ tables.next_fencing_token + 1)
  unfolding grant
  is_past-granted-new tables l t h =
      elim (Bool-cases (ltb (tables.next_fencing_token + 1) i64_limit)) [
        | inl e ↦
            rw (grant, e)
              (λ g.
                let same : t ≡ tables.next_fencing_token + 1 = Option.some-injective _ _ (sym g) in
                (rw (same, get-insert) (ground (arith, str_eq_refl name, str_eq_refl owner)), same))
        | inr e ↦ rw (grant, e) (λ g. cc)
      ]

  kept :
      (tables : LockTables) (row : KvLock) (l : ℕ)
      → is_past name owner 0 tables ≡ true
      → get tables.locks name ≡ some row
      → str_eq row.owner_id owner ≡ true
      → is_past name owner row.fencing_token
          (record tables { locks = update name (extend_lease l) tables.locks })
        ≡ true
  unfolding extend_lease
  kept tables row l h e own =
      let k : _ ≡ true = (rw e at h) in rw (get-update, e) (ground (arith, k, str_eq_refl name))

  -- An acquisition that succeeds leaves the tables past its token.
  acquired-past :
      (tables : LockTables) (now l t : ℕ)
      → is_past name owner 0 tables ≡ true
      → granted_token (acquire_lock tables name owner now l).1 ≡ some t
      → is_past name owner t (acquire_lock tables name owner now l).0 ≡ true
  unfolding acquire_lock
  acquired-past tables now l t h = elim (Option-cases (get tables.locks name)) [
    | inl e ↦ rw (e, acquire_lock) (λ g. (is_past-granted-new tables l t h g).0)
    | inr (row, e) ↦ elim (Bool-cases (ltb now row.lease_until_unix_ms)) [
      | inl live ↦ elim (Bool-cases (str_eq row.owner_id owner)) [
        | inl own ↦
            rw (e, acquire_lock, live, own)
              (λ g.
                let same : t ≡ row.fencing_token = Option.some-injective _ _ (sym g) in
                rw same (kept tables row l h e own))
        | inr other ↦ rw (e, acquire_lock, live, other) (λ g. cc)
      ]
      | inr over ↦ rw (e, acquire_lock, over) (λ g. (is_past-granted-new tables l t h g).0)
    ]
  ]

module _ (name owner : Str) where
  -- Another owner's token is later.
  acquired-after :
      (tables : LockTables) (other : Str) (now l t u : ℕ)
      → str_eq owner other ≡ false
      → is_past name owner t tables ≡ true
      → granted_token (acquire_lock tables name other now l).1 ≡ some u
      → t < u
  unfolding acquire_lock
  acquired-after tables other now l t u ne h = elim (Option-cases (get tables.locks name)) [
    | inl e ↦ rw (e, acquire_lock) (λ g. ground (arith, granted-next tables name other l u g))
    | inr (row, e) ↦ elim (Bool-cases (ltb now row.lease_until_unix_ms)) [
      | inl live ↦ elim (Bool-cases (str_eq row.owner_id other)) [
        | inl own ↦
            rw (e, acquire_lock, live, own)
              (λ g.
                let same : u ≡ row.fencing_token = Option.some-injective _ _ (sym g) in
                let k : _ ≡ true = (rw e at h) in
                rw same (
                  ground (
                    arith,
                    k,
                    str_eq_iff row.owner_id other,
                    str_eq_iff row.owner_id owner,
                    str_eq_iff owner other,
                  )))
        | inr not_own ↦ rw (e, acquire_lock, live, not_own) (λ g. cc)
      ]
      | inr over ↦
          rw (e, acquire_lock, over) (λ g. ground (arith, granted-next tables name other l u g))
    ]
  ]

-- Start from empty tables and run any acquisitions, renewals and releases, of any lock at any
-- times. If an owner then acquires a lock with token `t`, any operations follow, and another owner
-- acquires the same lock with token `u`, then `u` is larger than `t`.
pub fencing_tokens_grow :
    (before after : List LockStep) (name first second : Str) (now l later m t u : ℕ)
    → str_eq first second ≡ false
    → granted_token (acquire_lock (run no_locks before) name first now l).1 ≡ some t
    → granted_token
        (acquire_lock
          (run (acquire_lock (run no_locks before) name first now l).0 after)
          name
          second
          later
          m).1
      ≡ some u
    → t < u
unfolding get
fencing_tokens_grow before after name first second now l later m t u ne g k =
    let start = run no_locks before in
    let mid = (acquire_lock start name first now l).0 in
    acquired-after name first (run mid after) second later m t u ne
      (is_past-run name first t mid after
        (acquired-past name first start now l t (is_past-run name first 0 no_locks before refl) g))
      k
