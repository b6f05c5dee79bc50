-- ===== src/Deployment/Moved.antt =====
-- deployment.rs: the functions of this file as moves of deployments.
use mathlib.Core.Option
use swarmlite.Base.{
  ℕ, ◌≡◌, refl, sym, ap, ◌∙◌, true, Option, none, some, if◌then◌else◌, arith, Bool-cases,
  Option-cases, inl, inr, Str, str_eq, str_eq_iff,
}
use swarmlite.Base.Map.{BTreeMap, get, get-update, map_values}
use swarmlite.Cluster.{
  is_terminal, is_active, StackDeploymentError, StackDeploymentRecord, StackRecord,
  DeploymentImageResolutionRecord, ClusterState,
}
use swarmlite.Deployment.Conditions.{with_deployment, deployment_of}
use swarmlite.Deployment.Refresh.{becomes_healthy, becomes_stalled, progressed}
use swarmlite.Deployment.Report.{record_error}
use swarmlite.Deployment.Resolved.{image_failed}
use swarmlite.Deployment.Moves.{
  is_consistent, becomes_healthy-is_consistent, becomes_stalled-is_consistent,
  progressed-is_consistent, record_error-is_consistent, image_failed-is_consistent,
}

-- What one function makes of a deployment.
pub data Move (d e : StackDeploymentRecord) : Type 0 where
  healthy : (now : ℕ) → e ≡ becomes_healthy now d → Move d e
  stalled : (now : ℕ) → e ≡ becomes_stalled now d → Move d e
  progress : (now : ℕ) → e ≡ progressed now d → Move d e
  failed :
      (now : ℕ) (reason : Str) (error : StackDeploymentError)
      → e ≡ record_error now reason error d
      → Move d e
  images :
      (f : DeploymentImageResolutionRecord → DeploymentImageResolutionRecord)
      → e ≡ record d { image_resolutions = map_values f d.image_resolutions }
      → Move d e
  image_failure :
      (node_id image message : Str) (expected : BTreeMap DeploymentImageResolutionRecord) (now : ℕ)
      → e ≡ image_failed node_id image message expected now d
      → Move d e

-- Moves of active deployments, one after the other.
pub data Moves : StackDeploymentRecord → StackDeploymentRecord → Type 0 where
  done : {d : StackDeploymentRecord} → Moves d d
  and_then :
      {d e f : StackDeploymentRecord} → is_active d.status ≡ true → Move d e → Moves e f → Moves d f

pub Move-is_consistent :
    {d e : StackDeploymentRecord}
    → is_active d.status ≡ true
    → Move d e
    → is_consistent d ≡ true
    → is_consistent e ≡ true
unfolding is_consistent
Move-is_consistent active (Move.healthy now p) h =
    ap is_consistent p ∙ becomes_healthy-is_consistent now _
Move-is_consistent active (Move.stalled now p) h =
    ap is_consistent p ∙ becomes_stalled-is_consistent now _ active h
Move-is_consistent active (Move.progress now p) h =
    ap is_consistent p ∙ progressed-is_consistent now _ h
Move-is_consistent active (Move.failed now reason error p) h =
    ap is_consistent p ∙ record_error-is_consistent now _ reason error active h
Move-is_consistent active (Move.images f p) h = ap is_consistent p ∙ h
Move-is_consistent active (Move.image_failure node_id image message expected now p) h =
    ap is_consistent p ∙ image_failed-is_consistent now _ node_id image message expected h

pub Moves-is_consistent :
    {d e : StackDeploymentRecord} → Moves d e → is_consistent d ≡ true → is_consistent e ≡ true
Moves-is_consistent Moves.done h = h
Moves-is_consistent (Moves.and_then active m ms) h =
    Moves-is_consistent ms (Move-is_consistent active m h)

pub Moves-terminal : {d e : StackDeploymentRecord} → Moves d e → is_terminal d.status ≡ true → e ≡ d
Moves-terminal Moves.done h = refl
Moves-terminal (Moves.and_then active m ms) h = absurd (ground arith)

pub Moves-trans : {d e f : StackDeploymentRecord} → Moves d e → Moves e f → Moves d f
Moves-trans Moves.done ns = ns
Moves-trans (Moves.and_then active m ms) ns = Moves.and_then active m (Moves-trans ms ns)

-- Deployments appear and vanish by no move.
pub data Moved : Option StackDeploymentRecord → Option StackDeploymentRecord → Type 0 where
  absent : Moved none none
  present : {d e : StackDeploymentRecord} → Moves d e → Moved (some d) (some e)

pub Moved-refl : (o : Option StackDeploymentRecord) → Moved o o
Moved-refl none = Moved.absent
Moved-refl (some d) = Moved.present Moves.done

pub Moved-trans : {o p q : Option StackDeploymentRecord} → Moved o p → Moved p q → Moved o q
Moved-trans Moved.absent n = n
Moved-trans (Moved.present ms) (Moved.present ns) = Moved.present (Moves-trans ms ns)

abbrev deployment_in : Option StackRecord → Option StackDeploymentRecord
deployment_in none = none
deployment_in (some stack) = stack.deployment

deployment_of-in :
    (state : ClusterState) (j : Str) → deployment_of state j ≡ deployment_in (get state.stacks j)
unfolding deployment_of
deployment_of-in state j = elim (Option-cases (get state.stacks j)) [
  | inl e ↦ rw (deployment_of, e) refl
  | inr (stack, e) ↦ rw (deployment_of, e) refl
]

deployment_in-map :
    (f : StackDeploymentRecord → StackDeploymentRecord) (o : Option StackRecord)
    → deployment_in (
        Option.map {A = StackRecord}
          (λ stack. record stack { deployment = Option.map f stack.deployment })
          o)
      ≡ Option.map f (deployment_in o)
deployment_in-map f none = refl
deployment_in-map f (some stack) = refl

pub deployment_of-with :
    (state : ClusterState) (n j : Str) (f : StackDeploymentRecord → StackDeploymentRecord)
    → deployment_of (with_deployment state n f) j
      ≡ (if str_eq n j then Option.map f (deployment_of state j) else deployment_of state j)
unfolding with_deployment
deployment_of-with state n j f =
    deployment_of-in (with_deployment state n f) j
    ∙ ap deployment_in (get-update n j _ state.stacks)
    ∙ elim (Bool-cases (str_eq n j)) [
      | inl e ↦ rw e (
          deployment_in-map f (get state.stacks j)
          ∙ ap (Option.map f) (sym (deployment_of-in state j)))
      | inr e ↦ rw e (sym (deployment_of-in state j))
    ]

-- A move of one deployment.
pub with-Moved :
    (state : ClusterState) (n : Str) (f : StackDeploymentRecord → StackDeploymentRecord)
    (d : StackDeploymentRecord) (j : Str)
    → deployment_of state n ≡ some d
    → is_active d.status ≡ true
    → Move d (f d)
    → Moved (deployment_of state j) (deployment_of (with_deployment state n f) j)
with-Moved state n f d j found active m = elim (Bool-cases (str_eq n j)) [
  | inl e ↦
      let here : deployment_of state j ≡ some d =
        ap (deployment_of state) (sym ((str_eq_iff n j).0 e)) ∙ found in
      rw (deployment_of-with, e, here) (Moved.present (Moves.and_then active m Moves.done))
  | inr e ↦ rw (deployment_of-with, e) (Moved-refl (deployment_of state j))
]
