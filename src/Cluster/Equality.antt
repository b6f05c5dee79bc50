-- ===== src/Cluster/Equality.antt =====
-- The equality of specifications and of gateway fragments, which the source derives, and of service
-- operations, which it compares as JSON.
use swarmlite.Base.{◌≡◌, refl, ◌↔◌, Bool, true, false}
use swarmlite.Cluster.Spec.{ServiceSpec}
use swarmlite.Cluster.Operation.{ServiceOperationRecord}
use swarmlite.Cluster.State.{RecoveredStackGateway}
use native.Mathlib.Decide.{ℕ_discrete}

unfoldable pub ServiceSpec-discrete : Discrete ServiceSpec
ServiceSpec-discrete = hlevel ℕ_discrete

unfoldable pub RecoveredStackGateway-discrete : Discrete RecoveredStackGateway
RecoveredStackGateway-discrete = hlevel ℕ_discrete

unfoldable pub ServiceOperationRecord-discrete : Discrete ServiceOperationRecord
ServiceOperationRecord-discrete = hlevel ℕ_discrete

decided : {P : Type 0} → Dec P → Bool
decided (yes p) = true
decided (no n) = false

decided_iff : {P : Type 0} (d : Dec P) → (decided d ≡ true) ↔ P
unfolding decided
decided_iff (yes p) = (λ h. p, λ h. refl)
decided_iff (no n) = (λ h. absurd (cc h), λ p. absurd (n p))

unfoldable pub same_spec : ServiceSpec → ServiceSpec → Bool
unfolding decided
same_spec a b = decided (ServiceSpec-discrete a b)

unfoldable pub same_fragment : RecoveredStackGateway → RecoveredStackGateway → Bool
unfolding decided
same_fragment a b = decided (RecoveredStackGateway-discrete a b)

pub same_spec_iff : (a b : ServiceSpec) → (same_spec a b ≡ true) ↔ (a ≡ b)
unfolding same_spec
same_spec_iff a b = decided_iff (ServiceSpec-discrete a b)

pub same_fragment_iff : (a b : RecoveredStackGateway) → (same_fragment a b ≡ true) ↔ (a ≡ b)
unfolding same_fragment
same_fragment_iff a b = decided_iff (RecoveredStackGateway-discrete a b)

unfoldable pub same_operation : ServiceOperationRecord → ServiceOperationRecord → Bool
unfolding decided
same_operation a b = decided (ServiceOperationRecord-discrete a b)

pub same_operation_iff : (a b : ServiceOperationRecord) → (same_operation a b ≡ true) ↔ (a ≡ b)
unfolding same_operation
same_operation_iff a b = decided_iff (ServiceOperationRecord-discrete a b)
