-- ===== src/Apply/History.antt =====
-- deployment.rs, `apply_guarded`: the history of a stack's deployments, a map from generations.
use swarmlite.Base.{ℕ, Option, none, some, List, [], ◌∷◌, if◌then◌else◌, ltb, ◌==◌, length}
use swarmlite.Cluster.{StackDeploymentRecord, StackDeploymentStatus, is_active}

abbrev pub History : Type 0
History = List (ℕ × StackDeploymentRecord)

-- `BTreeMap::insert`.
unfoldable pub insert_generation : ℕ → StackDeploymentRecord → History → History
insert_generation generation deployment [] = (generation, deployment) ∷ []
insert_generation generation deployment ((g, d) ∷ rest) =
    if g == generation
    then (generation, deployment) ∷ rest
    else if ltb generation g
    then (generation, deployment) ∷ (g, d) ∷ rest
    else (g, d) ∷ insert_generation generation deployment rest

-- A deployment that is still active is superseded by the new one.
unfoldable pub supersede :
    (started_at_unix_ms generation : ℕ) → StackDeploymentRecord → StackDeploymentRecord
supersede started_at_unix_ms generation previous =
    if is_active previous.status
    then record previous {
      status = StackDeploymentStatus.superseded;
      finished_at_unix_ms = some started_at_unix_ms;
      superseded_by = some generation;
    }
    else previous

-- The oldest generations go until twenty are left.
unfoldable pub trim_history : History → History
trim_history [] = []
trim_history (entry ∷ rest) =
    let trimmed = trim_history rest in
    if ltb 20 (length (entry ∷ rest)) then trimmed else entry ∷ rest

unfoldable pub history_with :
    (started_at_unix_ms generation : ℕ) → Option StackDeploymentRecord → History → History
history_with started_at_unix_ms generation none history = trim_history history
history_with started_at_unix_ms generation (some previous) history = trim_history (
    insert_generation previous.generation (supersede started_at_unix_ms generation previous)
      history)
