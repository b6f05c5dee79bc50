-- ===== src/Deployment/Open.antt =====
-- deployment.rs: how many conditions of a kind are open.
use swarmlite.Base.{
  ℕ, ◌≡◌, refl, max, true, false, List, [], ◌∷◌, map, ◌&&◌, if◌then◌else◌, arith, count, Bool-cases,
  inl, inr, Str,
}
use swarmlite.Cluster.{StackDeploymentCondition, StackDeploymentConditionKind}
use swarmlite.Deployment.Conditions.{same_kind, is_open, set_condition, resolve_condition}

abbrev pub open_count : StackDeploymentConditionKind → List StackDeploymentCondition → ℕ
open_count kind = count (is_open kind)

same_kind_trans :
    (a b c : StackDeploymentConditionKind) → same_kind a b ≡ true → same_kind a c ≡ same_kind b c
unfolding same_kind
same_kind_trans StackDeploymentConditionKind.progress_deadline_exceeded
      StackDeploymentConditionKind.progress_deadline_exceeded c h =
    refl
same_kind_trans StackDeploymentConditionKind.user_action_required
      StackDeploymentConditionKind.user_action_required c h =
    refl
same_kind_trans StackDeploymentConditionKind.progress_deadline_exceeded
      StackDeploymentConditionKind.user_action_required c h =
    cc
same_kind_trans StackDeploymentConditionKind.user_action_required
      StackDeploymentConditionKind.progress_deadline_exceeded c h =
    cc

same_kind_sym : (a b : StackDeploymentConditionKind) → same_kind a b ≡ same_kind b a
unfolding same_kind
same_kind_sym StackDeploymentConditionKind.progress_deadline_exceeded
      StackDeploymentConditionKind.progress_deadline_exceeded =
    refl
same_kind_sym StackDeploymentConditionKind.user_action_required
      StackDeploymentConditionKind.user_action_required =
    refl
same_kind_sym StackDeploymentConditionKind.progress_deadline_exceeded
      StackDeploymentConditionKind.user_action_required =
    refl
same_kind_sym StackDeploymentConditionKind.user_action_required
      StackDeploymentConditionKind.progress_deadline_exceeded =
    refl

-- An open condition of a kind is open as one of another exactly if the kinds are the same.
same_open :
    (k kind : StackDeploymentConditionKind) (c : StackDeploymentCondition)
    → is_open kind c ≡ true
    → is_open k c ≡ same_kind kind k
unfolding is_open
same_open k kind c h = ground (arith, same_kind_trans c.kind kind k)

closed_open :
    (k kind : StackDeploymentConditionKind) (c : StackDeploymentCondition)
    → is_open kind c ≡ false
    → (same_kind kind k && is_open k c) ≡ false
unfolding is_open
closed_open k kind c h =
    ground (arith, same_kind_trans kind k c.kind, same_kind_sym c.kind kind, same_kind_sym c.kind k)

-- Setting a condition opens one of its kind, if none is open.
pub open_count-set_condition :
    (k kind : StackDeploymentConditionKind) (now : ℕ) (reason message : Str)
    (cs : List StackDeploymentCondition)
    → open_count k (set_condition kind now reason message cs)
      ≡ (if same_kind kind k then max 1 (open_count k cs) else open_count k cs)
unfolding count set_condition is_open
open_count-set_condition k kind now reason message [] = ground arith
open_count-set_condition k kind now reason message (c ∷ cs) = elim (Bool-cases (is_open kind c)) [
  | inl e ↦ rw (set_condition, e) (ground (arith, same_open k kind c e))
  | inr e ↦
      rw (set_condition, e)
        (ground
          (arith, open_count-set_condition k kind now reason message cs, closed_open k kind c e))
]

-- Resolving a kind leaves none open.
pub open_count-resolve_condition :
    (k kind : StackDeploymentConditionKind) (now : ℕ) (cs : List StackDeploymentCondition)
    → open_count k (map (resolve_condition kind now) cs)
      ≡ (if same_kind kind k then 0 else open_count k cs)
unfolding count resolve_condition is_open
open_count-resolve_condition k kind now [] = ground arith
open_count-resolve_condition k kind now (c ∷ cs) = elim (Bool-cases (is_open kind c)) [
  | inl e ↦
      rw (resolve_condition, e)
        (ground (arith, same_open k kind c e, open_count-resolve_condition k kind now cs))
  | inr e ↦
      rw (resolve_condition, e)
        (ground (arith, closed_open k kind c e, open_count-resolve_condition k kind now cs))
]
