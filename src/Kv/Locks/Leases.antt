-- ===== src/Kv/Locks/Leases.antt =====
-- kv.rs: the operations of others on a lock under a lease.
use mathlib.Core.Option
use swarmlite.Base.{
  ℕ, ◌≡◌, refl, sym, Bool, true, false, none, some, List, [], ◌∷◌, ◌&&◌, ◌||◌, not, arith, not-true,
  ◌∙◌, ap, ◌+◌, ◌-◌, ◌≤◌, ◌<◌, min, max, inl, inr, ltb, all, ◌==◌, Option-cases, Bool-cases,
  &&-true, Str, str_eq, str_eq_refl, str_eq_iff,
}
use swarmlite.Base.Map.{get, get-insert, get-remove, get-update}
use swarmlite.Kv.Locks.Table.{
  KvLock, KvLockStatus, LockTables, StorageResult, i64_limit, busy_response, grant, acquire_lock,
  renew_lock, release_lock, is_renewable, LockStep, step, run,
}

-- A step of another owner, or of another lock; an acquisition comes before the deadline.
abbrev pub is_foreign : Str → Str → ℕ → LockStep → Bool
is_foreign name owner deadline (LockStep.acquire n o now l) =
    not (str_eq n name) || not (str_eq o owner) && ltb now deadline
is_foreign name owner deadline (LockStep.renew n o k now l) =
    not (str_eq n name) || not (str_eq o owner)
is_foreign name owner deadline (LockStep.release n o k) =
    not (str_eq n name) || not (str_eq o owner)

module _ (name : Str) (row : KvLock) where
  grant-other :
      (tables : LockTables) (n o : Str) (l : ℕ)
      → str_eq n name ≡ false
      → get (grant tables n o l).0.locks name ≡ get tables.locks name
  unfolding grant
  grant-other tables n o l ne = elim (Bool-cases (ltb (tables.next_fencing_token + 1) i64_limit)) [
    | inl e ↦ rw e (rw (get-insert, ne) refl)
    | inr e ↦ rw e refl
  ]

  acquire-other :
      (tables : LockTables) (n o : Str) (now l : ℕ)
      → str_eq n name ≡ false
      → get (acquire_lock tables n o now l).0.locks name ≡ get tables.locks name
  unfolding acquire_lock
  acquire-other tables n o now l ne = elim (Option-cases (get tables.locks n)) [
    | inl e ↦ rw (e, acquire_lock) (grant-other tables n o l ne)
    | inr (r, e) ↦ elim (Bool-cases (ltb now r.lease_until_unix_ms)) [
      | inl live ↦ elim (Bool-cases (str_eq r.owner_id o)) [
        | inl own ↦ rw (e, acquire_lock, live, own) (rw (get-update, ne) refl)
        | inr other ↦ rw (e, acquire_lock, live, other) refl
      ]
      | inr over ↦ rw (e, acquire_lock, over) (grant-other tables n o l ne)
    ]
  ]

  -- The answer to another owner before the deadline.
  acquire-busy :
      (tables : LockTables) (o : Str) (now l : ℕ)
      → get tables.locks name ≡ some row
      → str_eq o row.owner_id ≡ false
      → ltb now row.lease_until_unix_ms ≡ true
      → acquire_lock tables name o now l
        ≡ (tables, StorageResult.ok (busy_response row.lease_until_unix_ms now))
  unfolding acquire_lock
  acquire-busy tables o now l e ne live =
      let other : str_eq row.owner_id o ≡ false =
        ground (arith, str_eq_iff row.owner_id o, str_eq_iff o row.owner_id) in
      rw (acquire_lock, e, live, other) refl

  -- A step on a row is a step of its owner.
  not_own :
      (tables : LockTables) (n o : Str) (r : KvLock)
      → get tables.locks name ≡ some row
      → get tables.locks n ≡ some r
      → str_eq n name ≡ true
      → str_eq r.owner_id o ≡ true
      → str_eq o row.owner_id ≡ true
  not_own tables n o r h e same own =
      let rows : row ≡ r =
        Option.some-injective _ _
          (sym h ∙ (ap (get tables.locks) (sym ((str_eq_iff n name).0 same)) ∙ e)) in
      rw rows (rw (sym ((str_eq_iff r.owner_id o).0 own)) (str_eq_refl r.owner_id))

  held-acquire :
      (tables : LockTables) (n o : Str) (now l : ℕ)
      → get tables.locks name ≡ some row
      → is_foreign name row.owner_id row.lease_until_unix_ms (LockStep.acquire n o now l) ≡ true
      → get (acquire_lock tables n o now l).0.locks name ≡ some row
  held-acquire tables n o now l h f = elim (Bool-cases (str_eq n name)) [
    | inr ne ↦ acquire-other tables n o now l ne ∙ h
    | inl e ↦
        let same : n ≡ name = (str_eq_iff n name).0 e in
        let r =
          &&-true (not (str_eq o row.owner_id)) (ltb now row.lease_until_unix_ms) (rw e at f) in
        rw same (rw (acquire-busy tables o now l h (not-true (str_eq o row.owner_id) r.0) r.1) h)
  ]

  held-renew :
      (tables : LockTables) (n o : Str) (k now l : ℕ)
      → get tables.locks name ≡ some row
      → is_foreign name row.owner_id row.lease_until_unix_ms (LockStep.renew n o k now l) ≡ true
      → get (renew_lock tables n o k now l).0.locks name ≡ some row
  unfolding renew_lock is_renewable
  held-renew tables n o k now l h f = elim (Bool-cases (ltb k i64_limit)) [
    | inr large ↦ rw (renew_lock, large) h
    | inl small ↦ elim (Option-cases (get tables.locks n)) [
      | inl e ↦ rw (renew_lock, small, e) h
      | inr (r, e) ↦ elim (Bool-cases (is_renewable o k now r)) [
        | inr not_live ↦ rw (renew_lock, small, e, not_live) h
        | inl live ↦
            rw (renew_lock, small, e, live)
              (rw (get-update, h) (ground (arith, not_own tables n o r h e)))
      ]
    ]
  ]

  held-release :
      (tables : LockTables) (n o : Str) (k : ℕ)
      → get tables.locks name ≡ some row
      → is_foreign name row.owner_id row.lease_until_unix_ms (LockStep.release n o k) ≡ true
      → get (release_lock tables n o k).0.locks name ≡ some row
  unfolding release_lock
  held-release tables n o k h f = elim (Bool-cases (ltb k i64_limit)) [
    | inr large ↦ rw (release_lock, large) h
    | inl small ↦ elim (Option-cases (get tables.locks n)) [
      | inl e ↦ rw (release_lock, small, e) h
      | inr (r, e) ↦ elim (Bool-cases (str_eq r.owner_id o && r.fencing_token == k)) [
        | inr other ↦ rw (release_lock, small, e, other) h
        | inl own ↦
            rw (release_lock, small, e, own)
              (rw (get-remove, h) (ground (arith, not_own tables n o r h e)))
      ]
    ]
  ]

  held-step :
      (tables : LockTables) (s : LockStep)
      → get tables.locks name ≡ some row
      → is_foreign name row.owner_id row.lease_until_unix_ms s ≡ true
      → get (step tables s).locks name ≡ some row
  held-step tables (LockStep.acquire n o now l) h f = held-acquire tables n o now l h f
  held-step tables (LockStep.renew n o k now l) h f = held-renew tables n o k now l h f
  held-step tables (LockStep.release n o k) h f = held-release tables n o k h f

  held-run :
      (tables : LockTables) (steps : List LockStep)
      → get tables.locks name ≡ some row
      → all (is_foreign name row.owner_id row.lease_until_unix_ms) steps ≡ true
      → get (run tables steps).locks name ≡ some row
  unfolding all
  held-run tables [] h f = h
  held-run tables (s ∷ steps) h f =
      let r = &&-true _ _ f in held-run (step tables s) steps (held-step tables s h r.0) r.1

-- While a lock is held by an owner under a lease, no steps of other owners before the deadline, and
-- no steps on other locks, change the lock's row; and another owner who tries to acquire it after
-- them, before the deadline, changes nothing and is told that it is busy, with the deadline and a
-- time to wait of 100 to 1000 milliseconds.
pub lease_is_exclusive :
    (name : Str) (row : KvLock) (tables : LockTables) (steps : List LockStep) (other : Str)
    (now l : ℕ)
    → get tables.locks name ≡ some row
    → all (is_foreign name row.owner_id row.lease_until_unix_ms) steps ≡ true
    → str_eq other row.owner_id ≡ false
    → now < row.lease_until_unix_ms
    → let left = run tables steps in
      (get left.locks name ≡ some row)
      × ((wait : ℕ) × (100 ≤ wait)
          × (wait ≤ 1000)
          × (acquire_lock left name other now l ≡ (
            left,
            StorageResult.ok (record {
              status = KvLockStatus.busy;
              fencing_token = none;
              lease_until_unix_ms = some row.lease_until_unix_ms;
              retry_after_millis = some wait;
            }),
          )))
lease_is_exclusive name row tables steps other now l h f ne before =
    let held = held-run name row tables steps h f in
    (
      held,
      (
        max 100 (min 1000 (row.lease_until_unix_ms - now)),
        omega arith,
        omega arith,
        acquire-busy name row (run tables steps) other now l held ne (ground arith),
      ),
    )
