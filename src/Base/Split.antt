-- ===== src/Base/Split.antt =====
-- Laws of the string methods on texts without the separators and without white space.
use mathlib.Core.List.{reverse, reverse-append, reverse-reverse}
use swarmlite.Base.{
  ℕ, ◌≡◌, refl, ap, ◌∙◌, Bool, true, some, none, List, [], ◌∷◌, ◌++◌, not, arith, ◌==◌, all, Str,
}
use swarmlite.Base.Scan.{strip_prefix, split_once, is_whitespace, trim_start, trim}

-- A character does not occur in a text.
abbrev pub Free : ℕ → Str → Type 0
Free d s = all (λ c. not (c == d)) s ≡ true

abbrev pub NoSpace : Str → Type 0
NoSpace s = all (λ c. not (is_whitespace c)) s ≡ true

pub all-append {ℓ} :
    {A : Type ℓ} (p : A → Bool) (xs ys : List A)
    → all p xs ≡ true
    → all p ys ≡ true
    → all p (xs ++ ys) ≡ true
unfolding all
all-append p [] ys h k = k
all-append p (x ∷ xs) ys h k = ground (arith, all-append p xs ys)

pub strip_prefix-append : (p s : Str) → strip_prefix p (p ++ s) ≡ some s
unfolding strip_prefix
strip_prefix-append [] s = refl
strip_prefix-append (c ∷ p) s = ground (arith, strip_prefix-append p s)

pub split_once-none : (d : ℕ) (ps s : Str) → Free d s → split_once (d ∷ ps) s ≡ none
unfolding split_once strip_prefix all
split_once-none d ps [] h = refl
split_once-none d ps (c ∷ s) h = ground (arith, split_once-none d ps s)

pub split_once-first :
    (d : ℕ) (ps s t : Str) → Free d s → split_once (d ∷ ps) (s ++ (d ∷ (ps ++ t))) ≡ some (s, t)
unfolding split_once strip_prefix all
split_once-first d ps [] t h = ground (arith, strip_prefix-append ps t)
split_once-first d ps (c ∷ s) t h = ground (arith, split_once-first d ps s t)

trim_start-NoSpace : (s : Str) → NoSpace s → trim_start s ≡ s
unfolding trim_start all
trim_start-NoSpace [] h = refl
trim_start-NoSpace (c ∷ s) h = ground arith

NoSpace-reverse : (s : Str) → NoSpace s → NoSpace (reverse s)
unfolding all
NoSpace-reverse [] h = refl
NoSpace-reverse (c ∷ s) h =
    rw (reverse-append (c ∷ []) s)
      (all-append _ (reverse s) (c ∷ []) (NoSpace-reverse s (ground arith)) (ground arith))

pub trim-NoSpace : (s : Str) → NoSpace s → trim s ≡ s
unfolding trim
trim-NoSpace s h =
    ap (λ u. reverse (trim_start (reverse u))) (trim_start-NoSpace s h)
    ∙ ap reverse (trim_start-NoSpace (reverse s) (NoSpace-reverse s h))
    ∙ reverse-reverse s
