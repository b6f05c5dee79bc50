-- ===== src/Kv/Store/Entries.antt =====
-- kv.rs: the objects of the store, the table `kv_objects`, and its queries.
use mathlib.Core.Option
use swarmlite.Base.{
  ℕ, zero, suc, ◌+◌, max, Bool, true, false, Option, none, some, List, [], ◌∷◌, ◌++◌, ◌||◌,
  if◌then◌else◌, length, filter, Str, codes, str_eq, str_lt,
}
use swarmlite.Base.Map.{BTreeMap, get, insert, remove}
use swarmlite.Base.Scan.{split_once_char}
use swarmlite.Kv.Keys.{is_component_descendant, join_path, keys_at, split, is_empty}

pub record KvObject : Type 0 where
  pub value : List ℕ
  pub modified_at_unix_ms : ℕ

pub record KvObjectResponse : Type 0 where
  pub key : Str
  pub value_base64 : Str
  pub modified_at_unix_ms : ℕ
  pub size : ℕ

pub record KvStatResponse : Type 0 where
  pub key : Str
  pub modified_at_unix_ms : ℕ
  pub size : ℕ
  pub is_value : Bool

-- The upsert of a row.
unfoldable pub put : BTreeMap KvObject → Str → List ℕ → ℕ → BTreeMap KvObject
put objects key value now = insert key (record { value = value; modified_at_unix_ms = now }) objects

-- `DELETE ... WHERE` a condition on the key.
unfoldable pub delete_where {ℓ} : {V : Type ℓ} → (Str → Bool) → BTreeMap V → BTreeMap V
delete_where p [] = []
delete_where p ((k, v) ∷ m) = let rest = delete_where p m in if p k then rest else (k, v) ∷ rest

-- `substr(s, 1, n)` and a slice from `n` on.
unfoldable pub take_chars : ℕ → Str → Str
take_chars zero s = []
take_chars (suc n) [] = []
take_chars (suc n) (c ∷ s) = c ∷ take_chars n s

unfoldable pub drop_chars : ℕ → Str → Str
drop_chars zero s = s
drop_chars (suc n) [] = []
drop_chars (suc n) (c ∷ s) = drop_chars n s

-- `substr(key, 1, length(?1) + 1) = ?1 || '/'`.
unfoldable pub has_sql_prefix : Str → Str → Bool
has_sql_prefix prefix key = str_eq (take_chars (length prefix + 1) key) (prefix ++ codes "/")

unfoldable pub delete : BTreeMap KvObject → Str → Bool → BTreeMap KvObject
delete objects key recursive =
    if recursive
    then delete_where (λ k. str_eq k key || has_sql_prefix key k) objects
    else remove key objects

module _ (encode : List ℕ → Str) where
  unfoldable pub get_object : BTreeMap KvObject → Str → Option KvObjectResponse
  get_object objects key =
      Option.map
        (λ row. record {
          key = key;
          value_base64 = encode row.value;
          modified_at_unix_ms = row.modified_at_unix_ms;
          size = length row.value;
        })
        (get objects key)

-- `BTreeSet::insert`.
unfoldable pub set_add : Str → List Str → List Str
set_add k [] = k ∷ []
set_add k (j ∷ s) = if str_eq j k then j ∷ s else if str_lt k j then k ∷ j ∷ s else j ∷ set_add k s

-- The loop over the components of a relative key: `current` grows by one component at a time.
unfoldable pub add_prefixes : Str → Str → List Str → List Str → List Str
add_prefixes path current [] result = result
add_prefixes path current (component ∷ rest) result =
    let next = (if is_empty current then current else current ++ codes "/") ++ component in
    add_prefixes path next rest (set_add (join_path path next) result)

unfoldable pub relative_key : Str → Str → Str
relative_key path key = if is_empty path then key else drop_chars (length path + 1) key

unfoldable pub add_entries : Str → Bool → Str → List Str → List Str
add_entries path recursive relative result =
    if recursive
    then add_prefixes path [] (split b'/' relative) result
    else elim (split_once_char b'/' relative) [
      | some parts ↦ set_add (join_path path parts.0) result
      | none ↦ set_add (join_path path relative) result
    ]

unfoldable pub list_entries : Str → Bool → List Str → List Str → List Str
list_entries path recursive [] result = result
list_entries path recursive (key ∷ ks) result =
    list_entries path recursive ks (add_entries path recursive (relative_key path key) result)

unfoldable pub list : BTreeMap KvObject → Str → Bool → Option (List Str)
list objects path recursive = elim (keys_at objects path) [
  | [] ↦ none
  | key ∷ ks ↦
      some
        (list_entries path recursive (filter (λ k. is_component_descendant k path) (key ∷ ks)) [])
]

-- `SELECT MAX(modified_at_unix_ms)` over the rows whose key has the prefix.
unfoldable pub max_modified : Str → BTreeMap KvObject → Option ℕ
max_modified prefix [] = none
max_modified prefix ((k, row) ∷ m) =
    let rest = max_modified prefix m in
    if is_empty prefix || has_sql_prefix prefix k
    then elim rest [
      | none ↦ some row.modified_at_unix_ms
      | some t ↦ some (max row.modified_at_unix_ms t)
    ]
    else rest

-- The value of the key, or what lies below it.
unfoldable pub stat : BTreeMap KvObject → Str → Option KvStatResponse
stat objects key =
    let below =
      Option.map (λ t. record { key = key; modified_at_unix_ms = t; size = 0; is_value = false })
        (max_modified key objects) in
    if is_empty key then below else elim (get objects key) [
      | some row ↦ some (record {
        key = key;
        modified_at_unix_ms = row.modified_at_unix_ms;
        size = length row.value;
        is_value = true;
      })
      | none ↦ below
    ]
