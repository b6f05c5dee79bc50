-- ===== src/Base/Map.antt =====
-- Rust's `BTreeMap` with string keys: an association list in the order of the keys. `get_mut`
-- followed by an assignment is `update`, and a loop over `values_mut` is `map_values`.
use swarmlite.Base.{
  ◌≡◌, refl, sym, inl, inr, Bool-cases, Bool, Option, none, some, List, [], ◌∷◌, map, Memᴰ, arith,
  if◌then◌else◌, is_some, any, Str, str_eq, str_eq_iff, str_lt,
}
use mathlib.Core.Option

abbrev pub BTreeMap {ℓ} : Type ℓ → Type ℓ
BTreeMap V = List (Str × V)

module _ {ℓ} {V : Type ℓ} where
  unfoldable pub get : BTreeMap V → Str → Option V
  get [] k = none
  get ((j, v) ∷ m) k = if str_eq j k then some v else get m k

  abbrev pub contains_key : BTreeMap V → Str → Bool
  contains_key m k = is_some (get m k)

  -- A new key goes before the first larger one.
  unfoldable pub insert : Str → V → BTreeMap V → BTreeMap V
  insert k v [] = (k, v) ∷ []
  insert k v ((j, w) ∷ m) =
      if str_eq j k
      then (k, v) ∷ m
      else if str_lt k j
      then (k, v) ∷ (j, w) ∷ m
      else (j, w) ∷ insert k v m

  unfoldable pub remove : Str → BTreeMap V → BTreeMap V
  remove k [] = []
  remove k ((j, w) ∷ m) = let rest = remove k m in if str_eq j k then rest else (j, w) ∷ rest

  unfoldable pub update : Str → (V → V) → BTreeMap V → BTreeMap V
  update k f [] = []
  update k f ((j, w) ∷ m) = if str_eq j k then (j, f w) ∷ m else (j, w) ∷ update k f m

  unfoldable pub map_values : (V → V) → BTreeMap V → BTreeMap V
  map_values f [] = []
  map_values f ((j, w) ∷ m) = (j, f w) ∷ map_values f m

  unfoldable pub values : BTreeMap V → List V
  values [] = []
  values ((j, w) ∷ m) = w ∷ values m

  unfoldable pub keys : BTreeMap V → List Str
  keys [] = []
  keys ((j, w) ∷ m) = j ∷ keys m

module _ {ℓ} {V : Type ℓ} where
  pub get-insert :
      (k j : Str) (v : V) (m : BTreeMap V)
      → get (insert k v m) j ≡ (if str_eq k j then some v else get m j)
  unfolding get insert
  get-insert k j v [] = refl
  get-insert k j v ((i, w) ∷ m) =
      ground (arith, str_eq_iff k j, str_eq_iff i k, str_eq_iff i j, get-insert k j v m)

  pub get-remove :
      (k j : Str) (m : BTreeMap V) → get (remove k m) j ≡ (if str_eq k j then none else get m j)
  unfolding get remove
  get-remove k j [] = ground arith
  get-remove k j ((i, w) ∷ m) =
      ground (arith, str_eq_iff k j, str_eq_iff i k, str_eq_iff i j, get-remove k j m)

  pub get-update :
      (k j : Str) (f : V → V) (m : BTreeMap V)
      → get (update k f m) j ≡ (if str_eq k j then Option.map f (get m j) else get m j)
  unfolding get update
  get-update k j f [] = ground arith
  get-update k j f ((i, w) ∷ m) =
      ground (arith, str_eq_iff k j, str_eq_iff i k, str_eq_iff i j, get-update k j f m)

  pub get-map_values :
      (f : V → V) (m : BTreeMap V) (j : Str) → get (map_values f m) j ≡ Option.map f (get m j)
  unfolding get map_values
  get-map_values f [] j = refl
  get-map_values f ((i, w) ∷ m) j = ground (arith, get-map_values f m j)

  pub values-map_values : (f : V → V) (m : BTreeMap V) → values (map_values f m) ≡ map f (values m)
  unfolding values map_values
  values-map_values f [] = refl
  values-map_values f ((i, w) ∷ m) = rw (values-map_values f m)

  pub get-mem : (m : BTreeMap V) (k : Str) {v : V} → get m k ≡ some v → Memᴰ v (values m)
  unfolding get values
  get-mem [] k h = cc
  get-mem ((j, w) ∷ m) k h = elim (Bool-cases (str_eq j k)) [
    | inl e ↦ Memᴰ.head (sym (Option.some-injective _ _ (rw e at h)))
    | inr e ↦ Memᴰ.tail (get-mem m k (rw e at h))
  ]

-- The keys are those that are found.
pub any-keys {ℓ} :
    {V : Type ℓ} (m : BTreeMap V) (j : Str) → any (λ n. str_eq n j) (keys m) ≡ is_some (get m j)
unfolding any keys get
any-keys [] j = refl
any-keys ((k, v) ∷ m) j = elim (Bool-cases (str_eq k j)) [
  | inl e ↦ rw e refl
  | inr e ↦ rw e (any-keys m j)
]
