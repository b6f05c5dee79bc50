-- ===== src/Kv/Store/Deleted.antt =====
-- kv.rs: the objects after a recursive delete.
use swarmlite.Base.{
  ℕ, suc, ◌+◌, ◌≡◌, refl, ap, ◌∙◌, Bool, true, none, [], ◌∷◌, ◌++◌, ◌||◌, arith, if◌then◌else◌,
  is_some_and, length, filter, Str, codes, str_eq, str_eq_iff, str_eq_refl,
}
use swarmlite.Base.Map.{BTreeMap, get, keys}
use swarmlite.Base.Scan.{strip_prefix, starts_with}
use swarmlite.Kv.Keys.{is_component_descendant, keys_at}
use swarmlite.Kv.Keys.Descendants.{is_at_or_below, keys_at_lem}
use swarmlite.Kv.Store.Entries.{
  KvObject, delete_where, take_chars, has_sql_prefix, delete, list, max_modified, stat,
}

add_one : (n : ℕ) → n + 1 ≡ suc n
add_one n = omega arith

-- The condition on `substr` is the test of `is_component_descendant`.
take-prefix :
    (path key : Str)
    → str_eq (take_chars (suc (length path)) key) (path ++ codes "/")
      ≡ is_some_and (strip_prefix path key) (λ suffix. starts_with suffix (codes "/"))
unfolding str_eq take_chars strip_prefix
take-prefix [] [] = refl
take-prefix [] (k ∷ ks) = ground arith
take-prefix (p ∷ ps) [] = refl
take-prefix (p ∷ ps) (k ∷ ks) = ground (arith, take-prefix ps ks)

has_sql_prefix-eq :
    (c : ℕ) (path key : Str)
    → has_sql_prefix (c ∷ path) key ≡ is_component_descendant key (c ∷ path)
unfolding has_sql_prefix is_component_descendant
has_sql_prefix-eq c path key = rw (add_one (length (c ∷ path))) (take-prefix (c ∷ path) key)

get-delete_where {ℓ} :
    {V : Type ℓ} (p : Str → Bool) (m : BTreeMap V) (j : Str)
    → get (delete_where p m) j ≡ (if p j then none else get m j)
unfolding get delete_where
get-delete_where p [] j = ground arith
get-delete_where p ((k, v) ∷ m) j = ground (arith, str_eq_iff k j, get-delete_where p m j)

filter-delete_where {ℓ} :
    {V : Type ℓ} (p q : Str → Bool) (m : BTreeMap V)
    → ((k : Str) → p k ≡ q k)
    → filter q (keys (delete_where p m)) ≡ []
unfolding filter keys delete_where
filter-delete_where p q [] h = refl
filter-delete_where p q ((k, v) ∷ m) h = ground (arith, h k, filter-delete_where p q m h)

max_modified-delete_where :
    (p : Str → Bool) (c : ℕ) (path : Str) (m : BTreeMap KvObject)
    → ((k : Str) → p k ≡ (str_eq k (c ∷ path) || has_sql_prefix (c ∷ path) k))
    → max_modified (c ∷ path) (delete_where p m) ≡ none
unfolding max_modified delete_where
max_modified-delete_where p c path [] h = refl
max_modified-delete_where p c path ((k, v) ∷ m) h =
    ground (arith, h k, max_modified-delete_where p c path m h)

list-none :
    (objects : BTreeMap KvObject) (path : Str) (recursive : Bool)
    → keys_at objects path ≡ []
    → list objects path recursive ≡ none
unfolding list
list-none objects path recursive h = rw (list, h) refl

stat-none :
    (objects : BTreeMap KvObject) (c : ℕ) (path : Str)
    → get objects (c ∷ path) ≡ none
    → max_modified (c ∷ path) objects ≡ none
    → stat objects (c ∷ path) ≡ none
unfolding stat
stat-none objects c path h k = rw (stat, h, k) refl

-- After a recursive delete of a key that is not empty: a key is gone if it was the deleted key or
-- lies below it by components, and every other key has the object it had; and neither `list` nor
-- `stat` finds anything at the deleted path.
pub delete_recursive :
    (objects : BTreeMap KvObject) (c : ℕ) (path : Str)
    → let key = c ∷ path in
      let left = delete objects key true in
      ((j : Str) → get left j ≡ (if is_at_or_below key j then none else get objects j))
      × ((recursive : Bool) → list left key recursive ≡ none)
      × (stat left key ≡ none)
unfolding delete
delete_recursive objects c path =
    let key = c ∷ path in
    let p : Str → Bool = λ k. str_eq k key || has_sql_prefix key k in
    let same : (k : Str) → p k ≡ is_at_or_below key k =
      λ k. ap (λ b. str_eq k key || b) (has_sql_prefix-eq c path k) in
    let get_left : (j : Str)
        → get (delete_where p objects) j ≡ (if is_at_or_below key j then none else get objects j) =
      λ j. get-delete_where p objects j ∙ ap (λ b. if b then none else get objects j) (same j) in
    (
      get_left,
      λ recursive. list-none (delete_where p objects) key recursive (
          keys_at_lem (delete_where p objects) key
          ∙ filter-delete_where p (is_at_or_below key) objects same),
      stat-none (delete_where p objects) c path (rw (get_left key, str_eq_refl key) refl)
          (max_modified-delete_where p c path objects (λ k. refl)),
    )
