-- ===== src/Deployment/Conditions.antt =====
-- deployment.rs: the conditions of a deployment, and the errors that need the user.
use mathlib.Core.Option
use swarmlite.Base.{
  ℕ, ◌+◌, Bool, true, false, Option, none, some, List, [], ◌∷◌, map, ◌&&◌, if◌then◌else◌, leb, any,
  is_none, is_some, Str, codes,
}
use swarmlite.Base.Map.{get, update}
use swarmlite.Base.Scan.{split_once}
use swarmlite.Cluster.{
  StackDeploymentCondition, StackDeploymentConditionKind, StackDeploymentRecord, ClusterState,
}

unfoldable pub same_kind : StackDeploymentConditionKind → StackDeploymentConditionKind → Bool
same_kind StackDeploymentConditionKind.progress_deadline_exceeded
      StackDeploymentConditionKind.progress_deadline_exceeded =
    true
same_kind StackDeploymentConditionKind.user_action_required
      StackDeploymentConditionKind.user_action_required =
    true
same_kind _ _ = false

unfoldable pub is_open : StackDeploymentConditionKind → StackDeploymentCondition → Bool
is_open kind condition = same_kind condition.kind kind && is_none condition.resolved_at_unix_ms

-- The condition that is written: the first open one of the kind, or a new one at the end.
unfoldable pub set_condition :
    StackDeploymentConditionKind
    → ℕ
    → (reason message : Str) → List StackDeploymentCondition
    → List StackDeploymentCondition
set_condition kind now reason message [] =
    (record {
      kind = kind;
      observed_at_unix_ms = now;
      resolved_at_unix_ms = none;
      reason = reason;
      message = message;
    })
    ∷ []
set_condition kind now reason message (c ∷ cs) =
    let rest = set_condition kind now reason message cs in
    if is_open kind c then record c { reason = reason; message = message } ∷ cs else c ∷ rest

unfoldable pub set_deployment_condition :
    StackDeploymentRecord
    → StackDeploymentConditionKind
    → (now_unix_ms : ℕ) → (reason message : Str) → StackDeploymentRecord
set_deployment_condition deployment kind now_unix_ms reason message = record deployment {
  conditions = set_condition kind now_unix_ms reason message deployment.conditions;
}

unfoldable pub resolve_condition :
    StackDeploymentConditionKind → ℕ → StackDeploymentCondition → StackDeploymentCondition
resolve_condition kind now condition =
    if is_open kind condition
    then record condition { resolved_at_unix_ms = some now }
    else condition

unfoldable pub resolve_deployment_condition :
    StackDeploymentRecord → StackDeploymentConditionKind → (now_unix_ms : ℕ) → StackDeploymentRecord
resolve_deployment_condition deployment kind now_unix_ms = record deployment {
  conditions = map (resolve_condition kind now_unix_ms) deployment.conditions;
}

unfoldable pub to_ascii_lowercase : ℕ → ℕ
to_ascii_lowercase c = if leb b'A' c && leb c b'Z' then c + 32 else c

unfoldable pub needles : List Str
needles =
    codes "unauthorized"
    ∷ codes "authentication required"
    ∷ codes "denied"
    ∷ codes "forbidden"
    ∷ codes "no basic auth credentials"
    ∷ codes "port is already allocated"
    ∷ codes "no matching node"
    ∷ codes "insufficient disk"
    ∷ []

unfoldable pub deployment_error_requires_user : Str → Bool
deployment_error_requires_user message =
    let lower = map to_ascii_lowercase message in
    any (λ needle. is_some (split_once needle lower)) needles

-- `state.stacks.get_mut(stack_name).and_then(|stack| stack.deployment.as_mut())`.
unfoldable pub with_deployment :
    ClusterState → Str → (StackDeploymentRecord → StackDeploymentRecord) → ClusterState
with_deployment state stack_name f = record state {
  stacks =
      update stack_name (λ stack. record stack { deployment = Option.map f stack.deployment })
        state.stacks;
}

-- `state.stacks.get(stack_name).and_then(|stack| stack.deployment.as_ref())`.
unfoldable pub deployment_of : ClusterState → Str → Option StackDeploymentRecord
deployment_of state stack_name = elim (get state.stacks stack_name) [
  | none ↦ none
  | some stack ↦ stack.deployment
]
