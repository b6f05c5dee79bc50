-- ===== src/Base/Tally.antt =====
-- Counting with a Boolean test: through sorting and reversing, and over the values of a map.
use mathlib.Core.List.{reverse, reverse-append}
use swarmlite.Base.{
  suc, ◌+◌, ◌≤◌, ◌≡◌, refl, Bool, true, false, none, List, [], ◌∷◌, ◌||◌, arith, if◌then◌else◌,
  length, count, count-append, is_some_and, Str,
}
use swarmlite.Base.Map.{BTreeMap, get, insert, update, values}
use swarmlite.Base.Sort.{insert_by, sort_by}

module _ {ℓ} {A : Type ℓ} where
  count-insert_by :
      (p : A → Bool) (lt : A → A → Bool) (x : A) (l : List A)
      → count p (insert_by lt x l) ≡ count p (x ∷ l)
  unfolding insert_by count
  count-insert_by p lt x [] = refl
  count-insert_by p lt x (y ∷ ys) = ground (arith, count-insert_by p lt x ys)

  pub count-sort_by :
      (p : A → Bool) (lt : A → A → Bool) (l : List A) → count p (sort_by lt l) ≡ count p l
  unfolding sort_by count
  count-sort_by p lt [] = refl
  count-sort_by p lt (x ∷ xs) =
      omega (arith, count-insert_by p lt x (sort_by lt xs), count-sort_by p lt xs)

  pub count-reverse : (p : A → Bool) (l : List A) → count p (reverse l) ≡ count p l
  unfolding count
  count-reverse p [] = refl
  count-reverse p (x ∷ xs) =
      rw (reverse-append (x ∷ []) xs)
        (rw (count-append p (reverse xs) (x ∷ [])) (omega (arith, count-reverse p xs)))

  pub count-true : (l : List A) → count (λ a. true) l ≡ length l
  unfolding count
  count-true [] = refl
  count-true (x ∷ xs) = omega (arith, count-true xs)

  pub count-le :
      (p q r : A → Bool) (l : List A)
      → ((a : A) → p a ≡ true → (q a || r a) ≡ true)
      → count p l ≤ count q l + count r l
  unfolding count
  count-le p q r [] h = omega arith
  count-le p q r (x ∷ xs) h = ground (arith, h x, count-le p q r xs h)

  pub count-eq : (p q : A → Bool) (l : List A) → ((a : A) → p a ≡ q a) → count p l ≡ count q l
  unfolding count
  count-eq p q [] h = refl
  count-eq p q (x ∷ xs) h = ground (arith, h x, count-eq p q xs h)

module _ {ℓ} {V : Type ℓ} where
  pub count-insert-le :
      (p : V → Bool) (k : Str) (v : V) (m : BTreeMap V)
      → count p (values (insert k v m)) ≤ count p (values m) + (if p v then 1 else 0)
  unfolding values insert count
  count-insert-le p k v [] = omega arith
  count-insert-le p k v ((j, w) ∷ m) = ground (arith, count-insert-le p k v m)

  pub count-insert :
      (p : V → Bool) (k : Str) (v : V) (m : BTreeMap V)
      → get m k ≡ none
      → count p (values (insert k v m)) ≡ count p (values m) + (if p v then 1 else 0)
  unfolding values insert count get
  count-insert p k v [] h = omega arith
  count-insert p k v ((j, w) ∷ m) h = ground (arith, count-insert p k v m)

  -- An update that the test does not see.
  pub count-update_eq :
      (p : V → Bool) (k : Str) (f : V → V) (m : BTreeMap V)
      → ((v : V) → p (f v) ≡ p v)
      → count p (values (update k f m)) ≡ count p (values m)
  unfolding values update count
  count-update_eq p k f [] h = refl
  count-update_eq p k f ((j, w) ∷ m) h = ground (arith, h w, count-update_eq p k f m h)

  -- An update after which the test fails.
  pub count-update_le :
      (p : V → Bool) (k : Str) (f : V → V) (m : BTreeMap V)
      → ((v : V) → p (f v) ≡ false)
      → count p (values (update k f m)) ≤ count p (values m)
  unfolding values update count
  count-update_le p k f [] h = omega arith
  count-update_le p k f ((j, w) ∷ m) h = ground (arith, h w, count-update_le p k f m h)

  pub count-update_pred :
      (p : V → Bool) (k : Str) (f : V → V) (m : BTreeMap V)
      → ((v : V) → p (f v) ≡ false)
      → is_some_and (get m k) p ≡ true
      → suc (count p (values (update k f m))) ≡ count p (values m)
  unfolding values update count get
  count-update_pred p k f [] h e = cc
  count-update_pred p k f ((j, w) ∷ m) h e = ground (arith, h w, count-update_pred p k f m h)

  -- An update of an entry that the test rejects before and after.
  pub count-update_skip :
      (p : V → Bool) (k : Str) (f : V → V) (m : BTreeMap V)
      → ((v : V) → p (f v) ≡ false)
      → is_some_and (get m k) p ≡ false
      → count p (values (update k f m)) ≡ count p (values m)
  unfolding values update count get
  count-update_skip p k f [] h e = refl
  count-update_skip p k f ((j, w) ∷ m) h e = ground (arith, h w, count-update_skip p k f m h)
