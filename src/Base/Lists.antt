-- ===== src/Base/Lists.antt =====
-- Iterator adaptors over lists with Boolean tests, measured by the native numbers.
use Prim.Native.Nat.{ℕ, suc, ◌+◌}
use mathlib.Core.Path.{◌≡◌, refl, sym, ap, ◌∙◌}
use mathlib.Core.Bool.{Bool, true, false, ◌&&◌, ◌||◌}
use mathlib.Core.Option
use mathlib.Core.Option.{Option, none, some}
use mathlib.Core.List.{List, [], ◌∷◌, ◌++◌, map, Memᴰ}
use mathlib.Core.Logic.{◌⊎◌, inl, inr}
use native.Mathlib.Omega.{arith}
use swarmlite.Base.Tests.{if◌then◌else◌, Bool-cases, &&-true, ||-false, ||-right}

module _ {ℓ} {A : Type ℓ} where
  abbrev pub length : List A → ℕ
  length [] = 0
  length (x ∷ xs) = suc (length xs)

  pub length-append : (xs ys : List A) → length (xs ++ ys) ≡ length xs + length ys
  length-append [] ys = omega arith
  length-append (x ∷ xs) ys = omega (arith, length-append xs ys)

  pub cases_cons : {a b : A} {l : List A} → Memᴰ a (b ∷ l) → (a ≡ b) ⊎ Memᴰ a l
  cases_cons (Memᴰ.head e) = inl e
  cases_cons (Memᴰ.tail m) = inr m

  -- `Iterator::filter`.
  unfoldable pub filter : (A → Bool) → List A → List A
  filter p [] = []
  filter p (x ∷ xs) = if p x then x ∷ filter p xs else filter p xs

  -- `Iterator::any` and `Iterator::all`.
  unfoldable pub any : (A → Bool) → List A → Bool
  any p [] = false
  any p (x ∷ xs) = p x || any p xs

  unfoldable pub all : (A → Bool) → List A → Bool
  all p [] = true
  all p (x ∷ xs) = p x && all p xs

  -- `Iterator::find`.
  unfoldable pub find : (A → Bool) → List A → Option A
  find p [] = none
  find p (x ∷ xs) = if p x then some x else find p xs

  -- `filter(p).count()`.
  unfoldable pub count : (A → Bool) → List A → ℕ
  count p [] = 0
  count p (x ∷ xs) = (if p x then 1 else 0) + count p xs

  pub length-filter : (p : A → Bool) (xs : List A) → length (filter p xs) ≡ count p xs
  unfolding filter count
  length-filter p [] = refl
  length-filter p (x ∷ xs) = ground (arith, length-filter p xs)

  pub count-append : (p : A → Bool) (xs ys : List A) → count p (xs ++ ys) ≡ count p xs + count p ys
  unfolding count
  count-append p [] ys = omega arith
  count-append p (x ∷ xs) ys = omega (arith, count-append p xs ys)

  pub filter-mem :
      (p : A → Bool) (xs : List A) {a : A} → Memᴰ a (filter p xs) → Memᴰ a xs × (p a ≡ true)
  unfolding filter
  filter-mem p [] m = elim m [ ]
  filter-mem p (x ∷ xs) {a} m = elim (Bool-cases (p x)) [
    | inl k ↦ elim (cases_cons (rw k at m)) [
      | inl e ↦ (Memᴰ.head e, rw e k)
      | inr t ↦ let r = filter-mem p xs t in (Memᴰ.tail r.0, r.1)
    ]
    | inr k ↦ let r = filter-mem p xs (rw k at m) in (Memᴰ.tail r.0, r.1)
  ]

  pub mem-filter :
      (p : A → Bool) (xs : List A) {a : A} → Memᴰ a xs → p a ≡ true → Memᴰ a (filter p xs)
  unfolding filter
  mem-filter p [] m h = elim m [ ]
  mem-filter p (x ∷ xs) (Memᴰ.head e) h = rw (ap p (sym e) ∙ h) (Memᴰ.head e)
  mem-filter p (x ∷ xs) (Memᴰ.tail t) h = elim (Bool-cases (p x)) [
    | inl k ↦ rw k (Memᴰ.tail (mem-filter p xs t h))
    | inr k ↦ rw k (mem-filter p xs t h)
  ]

  pub all-mem : (p : A → Bool) (xs : List A) {a : A} → all p xs ≡ true → Memᴰ a xs → p a ≡ true
  unfolding all
  all-mem p [] h m = elim m [ ]
  all-mem p (x ∷ xs) h (Memᴰ.head e) = rw e (&&-true (p x) (all p xs) h).0
  all-mem p (x ∷ xs) h (Memᴰ.tail t) = all-mem p xs (&&-true (p x) (all p xs) h).1 t

  pub all_intro :
      (p : A → Bool) (xs : List A) → ((a : A) → Memᴰ a xs → p a ≡ true) → all p xs ≡ true
  unfolding all
  all_intro p [] h = refl
  all_intro p (x ∷ xs) h = rw (h x (Memᴰ.head refl)) (all_intro p xs (λ a m. h a (Memᴰ.tail m)))

  pub any-false : (p : A → Bool) (xs : List A) {a : A} → any p xs ≡ false → Memᴰ a xs → p a ≡ false
  unfolding any
  any-false p [] h m = elim m [ ]
  any-false p (x ∷ xs) h (Memᴰ.head e) = rw e (||-false (p x) (any p xs) h).0
  any-false p (x ∷ xs) h (Memᴰ.tail t) = any-false p xs (||-false (p x) (any p xs) h).1 t

  pub any_intro : (p : A → Bool) (xs : List A) {a : A} → Memᴰ a xs → p a ≡ true → any p xs ≡ true
  unfolding any
  any_intro p [] m h = elim m [ ]
  any_intro p (x ∷ xs) (Memᴰ.head e) h = rw (ap p (sym e) ∙ h) refl
  any_intro p (x ∷ xs) (Memᴰ.tail t) h = rw (any_intro p xs t h) (||-right (p x))

  pub find-some :
      (p : A → Bool) (xs : List A) {a : A} → find p xs ≡ some a → Memᴰ a xs × (p a ≡ true)
  unfolding find
  find-some p [] h = cc
  find-some p (x ∷ xs) h = elim (Bool-cases (p x)) [
    | inl k ↦
        let e : x ≡ _ = Option.some-injective _ _ (rw k at h) in (Memᴰ.head (sym e), rw (sym e) k)
    | inr k ↦ let r = find-some p xs (rw k at h) in (Memᴰ.tail r.0, r.1)
  ]

  pub find-none : (p : A → Bool) (xs : List A) {a : A} → find p xs ≡ none → Memᴰ a xs → p a ≡ false
  unfolding find
  find-none p [] h m = elim m [ ]
  find-none p (x ∷ xs) h (Memᴰ.head e) = rw e (ground arith)
  find-none p (x ∷ xs) h (Memᴰ.tail t) = find-none p xs (ground arith) t

  pub map-mem {κ} :
      {B : Type κ} (f : A → B) (xs : List A) {a : A} → Memᴰ a xs → Memᴰ (f a) (map f xs)
  map-mem f [] m = elim m [ ]
  map-mem f (x ∷ xs) (Memᴰ.head e) = Memᴰ.head (ap f e)
  map-mem f (x ∷ xs) (Memᴰ.tail t) = Memᴰ.tail (map-mem f xs t)

  pub mem-map {κ} :
      {B : Type κ} (f : A → B) (xs : List A) {b : B}
      → Memᴰ b (map f xs)
      → (a : A) × Memᴰ a xs × (b ≡ f a)
  mem-map f [] m = elim m [ ]
  mem-map f (x ∷ xs) (Memᴰ.head e) = (x, Memᴰ.head refl, e)
  mem-map f (x ∷ xs) (Memᴰ.tail t) = let r = mem-map f xs t in (r.0, Memᴰ.tail r.1, r.2)
