-- ===== src/Base/Sort.antt =====
-- `sort` and `sort_by_key` of the standard library, which are stable: insertion sort. The head of
-- the result is a least element.
use swarmlite.Base.{
  ◌≡◌, subst, ◌||◌, inl, inr, Bool, true, false, List, [], ◌∷◌, Memᴰ, arith, if◌then◌else◌,
  Bool-cases, cases_cons,
}

module _ {ℓ} {A : Type ℓ} where
  -- `lt` is the strict order of the keys.
  unfoldable pub insert_by : (A → A → Bool) → A → List A → List A
  insert_by lt x [] = x ∷ []
  insert_by lt x (y ∷ ys) = if lt y x then y ∷ insert_by lt x ys else x ∷ y ∷ ys

  unfoldable pub sort_by : (A → A → Bool) → List A → List A
  unfolding insert_by
  sort_by lt [] = []
  sort_by lt (x ∷ xs) = insert_by lt x (sort_by lt xs)

  mem-insert_by :
      (lt : A → A → Bool) (x : A) (l : List A) {a : A} → Memᴰ a (x ∷ l) → Memᴰ a (insert_by lt x l)
  unfolding insert_by
  mem-insert_by lt x [] m = m
  mem-insert_by lt x (y ∷ ys) m = elim (Bool-cases (lt y x)) [
    | inr k ↦ rw k m
    | inl k ↦ rw k (elim (cases_cons m) [
      | inl e ↦ Memᴰ.tail (mem-insert_by lt x ys (Memᴰ.head e))
      | inr t ↦ elim (cases_cons t) [
        | inl e ↦ Memᴰ.head e
        | inr t' ↦ Memᴰ.tail (mem-insert_by lt x ys (Memᴰ.tail t'))
      ]
    ])
  ]

  insert_by-mem :
      (lt : A → A → Bool) (x : A) (l : List A) {a : A} → Memᴰ a (insert_by lt x l) → Memᴰ a (x ∷ l)
  unfolding insert_by
  insert_by-mem lt x [] m = m
  insert_by-mem lt x (y ∷ ys) m = elim (Bool-cases (lt y x)) [
    | inr k ↦ rw k at m
    | inl k ↦ elim (cases_cons (rw k at m)) [
      | inl e ↦ Memᴰ.tail (Memᴰ.head e)
      | inr t ↦ elim (cases_cons (insert_by-mem lt x ys t)) [
        | inl e ↦ Memᴰ.head e
        | inr t' ↦ Memᴰ.tail (Memᴰ.tail t')
      ]
    ]
  ]

  pub mem-sort_by : (lt : A → A → Bool) (l : List A) {a : A} → Memᴰ a l → Memᴰ a (sort_by lt l)
  unfolding sort_by
  mem-sort_by lt [] m = m
  mem-sort_by lt (x ∷ xs) m =
      mem-insert_by lt x (sort_by lt xs)
        (elim (cases_cons m) [ inl e ↦ Memᴰ.head e | inr t ↦ Memᴰ.tail (mem-sort_by lt xs t) ])

  pub sort_by-mem : (lt : A → A → Bool) (l : List A) {a : A} → Memᴰ a (sort_by lt l) → Memᴰ a l
  unfolding sort_by
  sort_by-mem lt [] m = m
  sort_by-mem lt (x ∷ xs) m = elim (cases_cons (insert_by-mem lt x (sort_by lt xs) m)) [
    | inl e ↦ Memᴰ.head e
    | inr t ↦ Memᴰ.tail (sort_by-mem lt xs t)
  ]

-- The laws of a strict order that the sort relies on.
pub record IsOrder {ℓ} {A : Type ℓ} (lt : A → A → Bool) : Type ℓ where
  pub asymm : (a b : A) → lt a b ≡ true → lt b a ≡ false
  pub cotrans : (a b c : A) → lt a c ≡ true → (lt a b || lt b c) ≡ true

module _ {ℓ} {A : Type ℓ} (lt : A → A → Bool) (o : IsOrder lt) where
  -- No element is before the head.
  abbrev HeadIsLeast : List A → Type ℓ
  HeadIsLeast [] = Unit
  HeadIsLeast (y ∷ ys) = (a : A) → Memᴰ a (y ∷ ys) → lt a y ≡ false

  irrefl : (a : A) → lt a a ≡ false
  irrefl a = ground (arith, o.asymm a a)

  eq-not-lt : {a b : A} → a ≡ b → lt a b ≡ false
  eq-not-lt {a} {b} e = rw e (irrefl b)

  insert_by-HeadIsLeast : (x : A) (l : List A) → HeadIsLeast l → HeadIsLeast (insert_by lt x l)
  unfolding insert_by
  insert_by-HeadIsLeast x [] h =
      λ a m. elim (cases_cons m) [ inl e ↦ eq-not-lt e | inr t ↦ elim t [ ] ]
  insert_by-HeadIsLeast x (y ∷ ys) h = elim (Bool-cases (lt y x)) [
    | inl k ↦ rw k (λ a m. elim (cases_cons m) [
      | inl e ↦ eq-not-lt e
      | inr t ↦ elim (cases_cons (insert_by-mem lt x ys t)) [
        | inl e ↦ rw e (o.asymm y x k)
        | inr t' ↦ h a (Memᴰ.tail t')
      ]
    ])
    | inr k ↦ rw k (λ a m. elim (cases_cons m) [
      | inl e ↦ eq-not-lt e
      | inr t ↦ ground (arith, h a t, o.cotrans a y x)
    ])
  ]

  sort_by-HeadIsLeast : (l : List A) → HeadIsLeast (sort_by lt l)
  unfolding sort_by
  sort_by-HeadIsLeast [] = tt
  sort_by-HeadIsLeast (x ∷ xs) = insert_by-HeadIsLeast x (sort_by lt xs) (sort_by-HeadIsLeast xs)

  pub sort_by-least :
      (l : List A) {x : A} {rest : List A}
      → sort_by lt l ≡ x ∷ rest
      → (a : A) → Memᴰ a l
      → lt a x ≡ false
  sort_by-least l e a m =
      (subst HeadIsLeast e (sort_by-HeadIsLeast l)) a (subst (Memᴰ a) e (mem-sort_by lt l m))
