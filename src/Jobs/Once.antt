-- ===== src/Jobs/Once.antt =====
-- jobs.rs, the loop over the services: running a schedule twice at one time.
use swarmlite.Base.{
  ℕ, ◌≡◌, ◌<◌, ◌≤◌, refl, sym, ap, ◌∙◌, ◌⊎◌, Bool, true, false, Option, none, some, List, ◌||◌,
  arith, inl, inr, ltb, leb, Bool-cases, Option-cases, ||-right, lt→ltb, Str, str_eq_refl, ◌-◌,
}
use swarmlite.Base.Map.{get, update, get-update}
use swarmlite.Cluster.{JobSpec, JobCursor, ServiceRecord, ClusterState}
use swarmlite.Jobs.Cursor.{
  cursor_eq, with_cursor, set_cursor, policy_changed, launch, next_after, move_cursor, move_base,
  later_of, moved_to, consume, run_schedule,
}

-- What the search for the next occurrence promises: it is after the time.
abbrev pub IsAfter : (Str → Str → ℕ → Option ℕ) → Type 0
IsAfter occurrence = (schedule zone : Str) (t n : ℕ) → occurrence schedule zone t ≡ some n → t < n

cursor_eq_refl : (c : JobCursor) → cursor_eq (some c) c ≡ true
unfolding cursor_eq
cursor_eq_refl c = elim (Option-cases c.last_scheduled_at_unix_ms) [
  | inl e ↦ rw e (ground (arith, str_eq_refl c.schedule, str_eq_refl c.time_zone))
  | inr (t, e) ↦ rw e (ground (arith, str_eq_refl c.schedule, str_eq_refl c.time_zone))
]

-- What a moved cursor has: the policy, a time that is not before the next occurrence, and the base
-- and the time of a further move.
moved_to-policy :
    (cursor : Option JobCursor) (schedule zone : Str) (next : ℕ)
    → policy_changed (some (moved_to cursor schedule zone next)) schedule zone ≡ false
unfolding policy_changed moved_to
moved_to-policy cursor schedule zone next = rw (str_eq_refl schedule, str_eq_refl zone) refl

moved_to-next :
    (cursor : Option JobCursor) (schedule zone : Str) (next : ℕ)
    → next ≤ (moved_to cursor schedule zone next).next_at_unix_ms
unfolding moved_to later_of
moved_to-next none schedule zone next = ground arith
moved_to-next (some c) schedule zone next = ground arith

moved_to-again :
    (cursor : Option JobCursor) (schedule zone : Str) (next : ℕ)
    → moved_to (some (moved_to cursor schedule zone next)) schedule zone next
      ≡ moved_to cursor schedule zone next
unfolding moved_to later_of
moved_to-again cursor schedule zone next = rw (moved_to-policy cursor schedule zone next) (
    ap (λ t. record (moved_to cursor schedule zone next) { next_at_unix_ms = t })
      (omega (arith, moved_to-next cursor schedule zone next)))

move_base-moved :
    (cursor : Option JobCursor) (schedule zone : Str) (next now : ℕ)
    → move_base (some (moved_to cursor schedule zone next)) now ≡ move_base cursor now
unfolding move_base moved_to
move_base-moved cursor schedule zone next now = refl

now-move_base : (cursor : Option JobCursor) (now : ℕ) → now ≤ move_base cursor now
unfolding move_base
now-move_base cursor now = omega arith

module _ (new_v4 : ClusterState → Str) (occurrence : Str → Str → ℕ → Option ℕ)
    (after : IsAfter occurrence) (live : List Str) (now : ℕ) (job : JobSpec) where
  next_is :
      (schedule : Str) (t : ℕ)
      → job.schedule ≡ some schedule
      → next_after occurrence job t ≡ occurrence schedule job.time_zone t
  unfolding next_after
  next_is schedule t e = simp (next_after, e)

  -- The cursor of a service is settled: a run leaves the state.
  IsSettled : ServiceRecord → Type 0
  IsSettled service =
      (other : ClusterState)
      → run_schedule new_v4 occurrence other live now service job ≡ (other, false)

  -- A cursor of the schedule that points past `now` is settled, unless the job is suspended.
  IsSettled-future :
      (service : ServiceRecord) (schedule : Str) (c : JobCursor)
      → job.schedule ≡ some schedule
      → (policy_changed (some c) schedule job.time_zone || job.suspend) ≡ false
      → now < c.next_at_unix_ms
      → IsSettled (with_cursor c service)
  unfolding IsSettled run_schedule consume
  IsSettled-future service schedule c e same before other =
      rw (e, same, lt→ltb now c.next_at_unix_ms before) refl

  -- A suspended job moves its cursor to the same place again.
  move_cursor-again :
      (service : ServiceRecord) (schedule : Str) (next : ℕ) (other : ClusterState)
      → next_after occurrence job (move_base service.job_cursor now) ≡ some next
      → move_cursor new_v4 occurrence other
          (with_cursor (moved_to service.job_cursor schedule job.time_zone next) service)
          job
          schedule
          now
        ≡ (other, false)
  unfolding move_cursor
  move_cursor-again service schedule next other found =
      let c = moved_to service.job_cursor schedule job.time_zone next in
      rw
        (
          move_cursor,
          move_base-moved service.job_cursor schedule job.time_zone next now,
          found,
          moved_to-again service.job_cursor schedule job.time_zone next,
          cursor_eq_refl c,
        )
        refl

  run-move :
      (other : ClusterState) (service : ServiceRecord) (schedule : Str)
      → job.schedule ≡ some schedule
      → (policy_changed service.job_cursor schedule job.time_zone || job.suspend) ≡ true
      → run_schedule new_v4 occurrence other live now service job
        ≡ move_cursor new_v4 occurrence other service job schedule now
  unfolding run_schedule
  run-move other service schedule e moves = simp (run_schedule, e, moves)

  IsSettled-suspended :
      (service : ServiceRecord) (schedule : Str) (next : ℕ)
      → job.schedule ≡ some schedule
      → job.suspend ≡ true
      → next_after occurrence job (move_base service.job_cursor now) ≡ some next
      → IsSettled (with_cursor (moved_to service.job_cursor schedule job.time_zone next) service)
  unfolding IsSettled
  IsSettled-suspended service schedule next e on found other =
      let later = with_cursor (moved_to service.job_cursor schedule job.time_zone next) service in
      run-move other later schedule e (
        ap (λ b. policy_changed later.job_cursor schedule job.time_zone || b) on
        ∙ ||-right (policy_changed later.job_cursor schedule job.time_zone))
      ∙ move_cursor-again service schedule next other found

  -- What a run leaves is settled: the service has a record on which a second run does nothing.
  IsOnce : ServiceRecord → ClusterState × Bool → Type 0
  IsOnce service out =
      (later : ServiceRecord) × (get out.0.services service.id ≡ some later)
      × (run_schedule new_v4 occurrence out.0 live now later job ≡ (out.0, false))

  IsOnce-moved :
      (state : ClusterState) (service : ServiceRecord) (c : JobCursor) (out : ClusterState)
      (b : Bool)
      → get state.services service.id ≡ some service
      → out.services ≡ update service.id (with_cursor c) state.services
      → IsSettled (with_cursor c service)
      → IsOnce service (out, b)
  unfolding IsOnce IsSettled
  IsOnce-moved state service c out b here services settled = (
    with_cursor c service,
    ap (λ m. get m service.id) services ∙ rw (get-update, str_eq_refl service.id, here) refl,
    settled out,
  )

  launch-services :
      (state : ClusterState) (service : ServiceRecord) (scheduled next : ℕ)
      → (launch new_v4 state live service now scheduled next).services ≡ state.services
  unfolding launch
  launch-services state service scheduled next = ground arith

  move_cursor-cases :
      (state : ClusterState) (service : ServiceRecord) (schedule : Str)
      → (move_cursor new_v4 occurrence state service job schedule now ≡ (state, false))
        ⊎ ((next : ℕ) × (next_after occurrence job (move_base service.job_cursor now) ≡ some next)
            × (move_cursor new_v4 occurrence state service job schedule now ≡ (
              set_cursor state service (moved_to service.job_cursor schedule job.time_zone next),
              true,
            )))
  unfolding move_cursor
  move_cursor-cases state service schedule =
      elim (Option-cases (next_after occurrence job (move_base service.job_cursor now))) [
        | inl nothing ↦ inl (rw (move_cursor, nothing) refl)
        | inr (next, found) ↦
            let c = moved_to service.job_cursor schedule job.time_zone next in
            elim (Bool-cases (cursor_eq service.job_cursor c)) [
              | inl same ↦ inl (rw (move_cursor, found, same) refl)
              | inr other ↦ inr (next, found, rw (move_cursor, found, other) refl)
            ]
      ]

  -- The cursor after an occurrence was consumed.
  consumed : JobCursor → ℕ → JobCursor
  consumed cursor next = record cursor {
    next_at_unix_ms = next;
    last_scheduled_at_unix_ms = some cursor.next_at_unix_ms;
  }

  consume-cases :
      (state : ClusterState) (service : ServiceRecord) (cursor : JobCursor)
      → (consume new_v4 occurrence state live service job cursor now ≡ (state, false))
        ⊎ ((next : ℕ) × (next_after occurrence job now ≡ some next)
            × ((consume new_v4 occurrence state live service job cursor now).0.services
                ≡ update service.id (with_cursor (consumed cursor next)) state.services))
  unfolding consume consumed
  consume-cases state service cursor = elim (Bool-cases (ltb now cursor.next_at_unix_ms)) [
    | inl early ↦ inl (rw (consume, early) refl)
    | inr due ↦ elim (Option-cases (next_after occurrence job now)) [
      | inl nothing ↦ inl (rw (consume, due, nothing) refl)
      | inr (next, found) ↦ elim (Bool-cases (leb 60000 (now - cursor.next_at_unix_ms))) [
        | inl late ↦ inr (next, found, rw (consume, due, found, late) refl)
        | inr in_time ↦
            inr (next, found, rw (consume, due, found, in_time) (launch-services _ service _ next))
      ]
    ]
  ]

  IsOnce-unchanged :
      (state : ClusterState) (service : ServiceRecord)
      → get state.services service.id ≡ some service
      → run_schedule new_v4 occurrence state live now service job ≡ (state, false)
      → IsOnce service (run_schedule new_v4 occurrence state live now service job)
  unfolding IsOnce
  IsOnce-unchanged state service here r = rw r (service, here, r)

  next_after-after :
      (schedule : Str) (t n : ℕ)
      → job.schedule ≡ some schedule
      → next_after occurrence job t ≡ some n
      → t < n
  unfolding next_after
  next_after-after schedule t n e h =
      after schedule job.time_zone t n (sym (next_is schedule t e) ∙ h)

  IsOnce-move :
      (state : ClusterState) (service : ServiceRecord) (schedule : Str)
      → get state.services service.id ≡ some service
      → job.schedule ≡ some schedule
      → (policy_changed service.job_cursor schedule job.time_zone || job.suspend) ≡ true
      → IsOnce service (run_schedule new_v4 occurrence state live now service job)
  IsOnce-move state service schedule here e moves =
      let runs = run-move state service schedule e moves in
      elim (move_cursor-cases state service schedule) [
        | inl same ↦ IsOnce-unchanged state service here (runs ∙ same)
        | inr (next, found, moved) ↦
            let c = moved_to service.job_cursor schedule job.time_zone next in
            rw (runs, moved)
              (IsOnce-moved state service c (set_cursor state service c) true here refl
                (elim (Bool-cases job.suspend) [
                  | inl on ↦ IsSettled-suspended service schedule next e on found
                  | inr off ↦
                      IsSettled-future service schedule c e
                        (rw (moved_to-policy service.job_cursor schedule job.time_zone next) off)
                        (omega (
                          arith,
                          next_after-after schedule (move_base service.job_cursor now) next e found,
                          now-move_base service.job_cursor now,
                          moved_to-next service.job_cursor schedule job.time_zone next,
                        ))
                ]))
      ]

  -- Neither a new policy nor suspended: the cursor's occurrence is looked at.
  run-stay :
      (other : ClusterState) (service : ServiceRecord) (schedule : Str) (cursor : Option JobCursor)
      → service.job_cursor ≡ cursor
      → job.schedule ≡ some schedule
      → (policy_changed service.job_cursor schedule job.time_zone || job.suspend) ≡ false
      → run_schedule new_v4 occurrence other live now service job ≡ elim cursor [
        | none ↦ (other, false)
        | some c ↦ consume new_v4 occurrence other live service job c now
      ]
  unfolding run_schedule
  run-stay other service schedule cursor has e stays =
      let same : (policy_changed cursor schedule job.time_zone || job.suspend) ≡ false =
        ap (λ c. policy_changed c schedule job.time_zone || job.suspend) (sym has) ∙ stays in
      simp (run_schedule, e, has, same)

  IsOnce-consume :
      (state : ClusterState) (service : ServiceRecord) (schedule : Str) (cursor : JobCursor)
      → get state.services service.id ≡ some service
      → job.schedule ≡ some schedule
      → (policy_changed (some cursor) schedule job.time_zone || job.suspend) ≡ false
      → run_schedule new_v4 occurrence state live now service job
        ≡ consume new_v4 occurrence state live service job cursor now
      → IsOnce service (run_schedule new_v4 occurrence state live now service job)
  unfolding policy_changed consumed
  IsOnce-consume state service schedule cursor here e stays runs =
      elim (consume-cases state service cursor) [
        | inl same ↦ IsOnce-unchanged state service here (runs ∙ same)
        | inr (next, found, services) ↦
            let out = consume new_v4 occurrence state live service job cursor now in
            rw runs (
              IsOnce-moved state service (consumed cursor next) out.0 out.1 here services (
                IsSettled-future service schedule (consumed cursor next) e stays
                  (next_after-after schedule now next e found)))
      ]

  IsOnce-stays :
      (state : ClusterState) (service : ServiceRecord) (schedule : Str)
      → get state.services service.id ≡ some service
      → job.schedule ≡ some schedule
      → (policy_changed service.job_cursor schedule job.time_zone || job.suspend) ≡ false
      → IsOnce service (run_schedule new_v4 occurrence state live now service job)
  IsOnce-stays state service schedule here e stays = elim (Option-cases service.job_cursor) [
    | inl nothing ↦
        IsOnce-unchanged state service here (run-stay state service schedule none nothing e stays)
    | inr (cursor, has) ↦
        IsOnce-consume state service schedule cursor here e
          (ap (λ c. policy_changed c schedule job.time_zone || job.suspend) (sym has) ∙ stays)
          (run-stay state service schedule (some cursor) has e stays)
  ]

-- Run the schedule of a job of a service that the state holds, at any time and with any live nodes,
-- where the next occurrence of a schedule after a time is after it. Then the state still holds the
-- service, and a second run at the same time leaves the state unchanged and reports no change,
-- whether the first run changed the policy, was suspended, started an occurrence, skipped a late
-- one, or did nothing.
pub run_schedule_once :
    (new_v4 : ClusterState → Str) (occurrence : Str → Str → ℕ → Option ℕ)
    → IsAfter occurrence
    → (live : List Str) (now : ℕ) (job : JobSpec) (state : ClusterState) (service : ServiceRecord)
    → get state.services service.id ≡ some service
    → let out = run_schedule new_v4 occurrence state live now service job in
      (later : ServiceRecord) × (get out.0.services service.id ≡ some later)
      × (run_schedule new_v4 occurrence out.0 live now later job ≡ (out.0, false))
unfolding IsOnce run_schedule
run_schedule_once new_v4 occurrence after live now job state service here =
    elim (Option-cases job.schedule) [
      | inl manual ↦
          IsOnce-unchanged new_v4 occurrence after live now job state service here
            (simp (run_schedule, manual))
      | inr (schedule, e) ↦
          elim (Bool-cases
            (policy_changed service.job_cursor schedule job.time_zone || job.suspend)) [
              | inl moves ↦
                  IsOnce-move new_v4 occurrence after live now job state service schedule here e
                    moves
              | inr stays ↦
                  IsOnce-stays new_v4 occurrence after live now job state service schedule here e
                    stays
            ]
    ]
