-- ===== src/Scheduler/Placement/Slots.antt =====
-- The slot that a new task gets.
use mathlib.Core.Option
use native.Mathlib.Decide.{ℕ_discrete}
use swarmlite.Base.{
  ℕ, zero, suc, ◌+◌, ◌≤◌, ◌<◌, ◌≡◌, true, false, none, some, List, arith, Bool-cases, inl, inr,
}
use swarmlite.Scheduler.Ports.{contains_ℕ}
use swarmlite.Scheduler.Placement.{first_free_slot}

-- The slot found is in the range and free, and every smaller slot of the range is used.
pub first_free_slot-some :
    (left slot : ℕ) (used : List ℕ) {s : ℕ}
    → first_free_slot left slot used ≡ some s
    → (slot ≤ s)
      × (s < slot + left)
      × (contains_ℕ used s ≡ false)
      × ((r : ℕ) → slot ≤ r → r < s → contains_ℕ used r ≡ true)
unfolding first_free_slot
first_free_slot-some zero slot used h = cc
first_free_slot-some (suc left) slot used {s} h = elim (Bool-cases (contains_ℕ used slot)) [
  | inr k ↦
      let e : slot ≡ s = Option.some-injective _ _ (rw k at h) in
      (omega arith, omega arith, rw (← e) k, λ r p q. absurd (omega arith))
  | inl k ↦
      let rest = first_free_slot-some left (slot + 1) used (rw k at h) in
      (
        omega arith,
        omega arith,
        rest.2,
        λ r p q. elim (ℕ_discrete r slot) [ yes e ↦ rw e k | no n ↦ rest.3 r (omega arith) q ],
      )
]

-- No slot is found only if all of the range is used.
pub first_free_slot-none :
    (left slot : ℕ) (used : List ℕ)
    → first_free_slot left slot used ≡ none
    → (r : ℕ) → slot ≤ r
    → r < slot + left
    → contains_ℕ used r ≡ true
unfolding first_free_slot
first_free_slot-none zero slot used h r p q = absurd (omega arith)
first_free_slot-none (suc left) slot used h r p q =
    ground (arith, first_free_slot-none left (slot + 1) used (ground arith) r)
