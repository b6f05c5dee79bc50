-- ===== src/Apply/Bounds.antt =====
-- deployment.rs, `apply_guarded`: the length of the history, and what it keeps.
use swarmlite.Base.{
  ℕ, ◌≤◌, ◌≡◌, ◌⊎◌, inl, inr, refl, ap, ◌∙◌, some, [], ◌∷◌, ◌++◌, arith, length, ltb, Bool-cases,
}
use swarmlite.Cluster.{StackDeploymentRecord}
use swarmlite.Apply.History.{History, insert_generation, supersede, trim_history, history_with}

trim_history-length : (h : History) → length (trim_history h) ≤ 20
unfolding trim_history
trim_history-length [] = omega arith
trim_history-length (entry ∷ rest) = ground (arith, trim_history-length rest)

-- Only the oldest entries go.
trim_history-suffix :
    (h : History)
    → (gone : History) × (h ≡ gone ++ trim_history h)
      × ((gone ≡ []) ⊎ (length (trim_history h) ≡ 20))
unfolding trim_history
trim_history-suffix [] = ([], refl, inl refl)
trim_history-suffix (entry ∷ rest) = elim (Bool-cases (ltb 20 (length (entry ∷ rest)))) [
  | inr k ↦ ([], rw k refl, inl refl)
  | inl k ↦
      let r = trim_history-suffix rest in
      (
        entry ∷ r.0,
        rw k (ap (λ h. entry ∷ h) r.1),
        inr (
            rw k (elim r.2 [
              | inr full ↦ full
              | inl none_gone ↦
                  let whole : rest ≡ trim_history rest =
                    r.1 ∙ ap (λ g. g ++ trim_history rest) none_gone in
                  ground (arith, trim_history-length rest, ap length whole)
            ])),
      )
]

-- After an apply the history holds at most twenty deployments: those it held and the one before,
-- without as many of the oldest as it takes to have twenty.
pub history_with-newest :
    (started_at_unix_ms generation : ℕ) (previous : StackDeploymentRecord) (history : History)
    → let after = history_with started_at_unix_ms generation (some previous) history in
      (length after ≤ 20)
      × ((gone : History) × (insert_generation previous.generation
              (supersede started_at_unix_ms generation previous)
              history
            ≡ gone ++ after)
          × ((gone ≡ []) ⊎ (length after ≡ 20)))
unfolding history_with
history_with-newest started_at_unix_ms generation previous history =
    let held =
      insert_generation previous.generation (supersede started_at_unix_ms generation previous)
        history in
    (trim_history-length held, trim_history-suffix held)
