-- ===== src/Kv/Keys/Range.antt =====
-- kv.rs: `is_component_descendant`, `join_path` and the range condition of `keys_at`.
use swarmlite.Base.{
  Bool, true, false, List, [], ◌∷◌, ◌++◌, ◌&&◌, ◌||◌, not, if◌then◌else◌, is_some_and, filter, Str,
  codes, str_eq, str_lt,
}
use swarmlite.Base.Map.{BTreeMap, keys}
use swarmlite.Base.Scan.{strip_prefix, starts_with}

abbrev is_nil : Str → Bool
is_nil [] = true
is_nil (c ∷ s) = false

unfoldable pub is_component_descendant : Str → Str → Bool
is_component_descendant key prefix =
    is_nil prefix
    || is_some_and (strip_prefix prefix key) (λ suffix. starts_with suffix (codes "/"))

unfoldable pub join_path : Str → Str → Str
join_path path relative = if is_nil path then relative else path ++ (codes "/" ++ relative)

-- `key = ?1 OR (key >= ?2 AND key < ?3)` with `path/` and `path0` for the bounds.
unfoldable pub in_range : Str → Str → Bool
in_range path key =
    str_eq key path || not (str_lt key (path ++ codes "/")) && str_lt key (path ++ codes "0")

-- The keys at and below a path, in order.
unfoldable pub keys_at {ℓ} : {V : Type ℓ} → BTreeMap V → Str → List Str
keys_at objects path = if is_nil path then keys objects else filter (in_range path) (keys objects)
