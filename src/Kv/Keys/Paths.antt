-- ===== src/Kv/Keys/Paths.antt =====
-- kv.rs: the syntax of keys and of query paths.
use swarmlite.Base.{
  ℕ, ◌+◌, Bool, true, false, List, [], ◌∷◌, ◌||◌, if◌then◌else◌, ltb, ◌==◌, any, Str,
}

-- `str::len`: the bytes of the UTF-8 encoding.
unfoldable pub utf8_len : Str → ℕ
utf8_len [] = 0
utf8_len (c ∷ s) =
    (if ltb c 0x80 then 1 else if ltb c 0x800 then 2 else if ltb c 0x10000 then 3 else 4)
    + utf8_len s

-- Puts a character in front of the first component.
abbrev onto_first : ℕ → List Str → List Str
onto_first c [] = (c ∷ []) ∷ []
onto_first c (s ∷ rest) = (c ∷ s) ∷ rest

-- `str::split` at a character: at least one component.
unfoldable pub split : ℕ → Str → List Str
split d [] = [] ∷ []
split d (c ∷ s) = let rest = split d s in if c == d then [] ∷ rest else onto_first c rest

abbrev pub is_empty : Str → Bool
is_empty [] = true
is_empty (c ∷ s) = false

-- `str::ends_with` a character.
unfoldable pub ends_with_char : ℕ → Str → Bool
ends_with_char d [] = false
ends_with_char d (c ∷ []) = c == d
ends_with_char d (c ∷ e ∷ s) = ends_with_char d (e ∷ s)

unfoldable pub starts_with_char : ℕ → Str → Bool
starts_with_char d [] = false
starts_with_char d (c ∷ s) = c == d

pub data KeyError : Type 0 where
  too_long empty bad_components : KeyError

pub data Validated : Type 0 where
  ok : Validated
  err : KeyError → Validated

abbrev pub max_key_bytes : ℕ
max_key_bytes = 1024

unfoldable pub validate_query_path : Str → Validated
validate_query_path path =
    if ltb max_key_bytes (utf8_len path)
    then err too_long
    else if is_empty path
    then ok
    else if starts_with_char b'/' path || ends_with_char b'/' path || any is_empty (split b'/' path)
    then err bad_components
    else ok

-- `validate_query_path(key)?`, and then the key must not be empty.
unfoldable pub validate_key : Str → Validated
validate_key key = elim (validate_query_path key) [
  | err e ↦ err e
  | ok ↦ if is_empty key then err empty else ok
]
