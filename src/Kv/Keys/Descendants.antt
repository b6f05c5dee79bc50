-- ===== src/Kv/Keys/Descendants.antt =====
-- kv.rs: the range query of `keys_at` and the component prefix.
use swarmlite.Base.{
  ℕ, ◌≡◌, refl, Bool, true, List, [], ◌∷◌, ◌++◌, ◌&&◌, ◌||◌, not, arith, filter, is_some_and, sym,
  ||-right, Str, codes, str_eq, str_lt,
}
use swarmlite.Base.Map.{BTreeMap, keys}
use swarmlite.Base.Scan.{strip_prefix, starts_with}
use swarmlite.Kv.Keys.Range.{is_component_descendant, in_range, keys_at}

-- Between `path/` and `path0` lie exactly the texts that begin with `path/`.
range-eq-prefix :
    (path key : Str)
    → (not (str_lt key (path ++ codes "/")) && str_lt key (path ++ codes "0"))
      ≡ is_some_and (strip_prefix path key) (λ suffix. starts_with suffix (codes "/"))
unfolding str_lt strip_prefix
range-eq-prefix [] [] = refl
range-eq-prefix [] (k ∷ []) = ground arith
range-eq-prefix [] (k ∷ l ∷ ks) = ground arith
range-eq-prefix (p ∷ ps) [] = refl
range-eq-prefix (p ∷ ps) (k ∷ ks) = ground (arith, range-eq-prefix ps ks)

-- A key is the path itself or lies below it by components.
abbrev pub is_at_or_below : Str → Str → Bool
is_at_or_below path key = str_eq key path || is_component_descendant key path

filter-all : (p : Str → Bool) (ks : List Str) → ((k : Str) → p k ≡ true) → filter p ks ≡ ks
unfolding filter
filter-all p [] h = refl
filter-all p (k ∷ ks) h = rw (h k, filter-all p ks h) refl

filter-cong :
    (p q : Str → Bool) (ks : List Str) → ((k : Str) → p k ≡ q k) → filter p ks ≡ filter q ks
unfolding filter
filter-cong p q [] h = refl
filter-cong p q (k ∷ ks) h = rw (h k, filter-cong p q ks h) refl

in_range-eq : (c : ℕ) (path key : Str) → in_range (c ∷ path) key ≡ is_at_or_below (c ∷ path) key
unfolding in_range is_component_descendant
in_range-eq c path key = rw (range-eq-prefix (c ∷ path) key) refl

-- For every path, the empty one included, the range query finds exactly the stored keys that are
-- the path or lie below it by components, in their order.
pub keys_at_lem {ℓ} :
    {V : Type ℓ} (objects : BTreeMap V) (path : Str)
    → keys_at objects path ≡ filter (is_at_or_below path) (keys objects)
unfolding keys_at is_component_descendant
keys_at_lem objects [] = sym (filter-all _ (keys objects) (λ k. ||-right (str_eq k [])))
keys_at_lem objects (c ∷ path) = filter-cong _ _ (keys objects) (in_range-eq c path)
