-- ===== src/Base/Scan.antt =====
-- The string methods of the standard library that the program calls: `strip_prefix`, `split_once`,
-- `rsplit_once`, `trim`, `contains` and `starts_with`.
use mathlib.Core.Option
use mathlib.Core.List.{reverse}
use swarmlite.Base.{
  ℕ, Bool, Option, none, some, [], ◌∷◌, ◌||◌, ◌&&◌, leb, ◌==◌, if◌then◌else◌, any, is_some, Str,
}

unfoldable pub strip_prefix : Str → Str → Option Str
strip_prefix [] s = some s
strip_prefix (p ∷ ps) [] = none
strip_prefix (p ∷ ps) (c ∷ s) = if p == c then strip_prefix ps s else none

abbrev pub starts_with : Str → Str → Bool
starts_with s p = is_some (strip_prefix p s)

-- Splits at the first occurrence of the pattern.
unfoldable pub split_once : Str → Str → Option (Str × Str)
unfolding strip_prefix
split_once p [] = Option.map (λ rest. ([], rest)) (strip_prefix p [])
split_once p (c ∷ s) = elim (strip_prefix p (c ∷ s)) [
  | some rest ↦ some ([], rest)
  | none ↦ Option.map (λ parts. (c ∷ parts.0, parts.1)) (split_once p s)
]

-- Splits at the first occurrence of a character.
unfoldable pub split_once_char : ℕ → Str → Option (Str × Str)
split_once_char d [] = none
split_once_char d (c ∷ s) =
    let rest = split_once_char d s in
    if c == d then some ([], s) else Option.map (λ parts. (c ∷ parts.0, parts.1)) rest

-- Splits at the last occurrence of a character.
unfoldable pub rsplit_once : ℕ → Str → Option (Str × Str)
rsplit_once d [] = none
rsplit_once d (c ∷ s) = elim (rsplit_once d s) [
  | some parts ↦ some (c ∷ parts.0, parts.1)
  | none ↦ if c == d then some ([], s) else none
]

unfoldable pub contains_char : ℕ → Str → Bool
contains_char d = any (λ c. c == d)

-- `char::is_whitespace`: the characters with the property White_Space.
unfoldable pub is_whitespace : ℕ → Bool
is_whitespace c =
    leb 9 c && leb c 13
    || c == 32
    || c == 0x85
    || c == 0xa0
    || c == 0x1680
    || leb 0x2000 c && leb c 0x200a
    || c == 0x2028
    || c == 0x2029
    || c == 0x202f
    || c == 0x205f
    || c == 0x3000

unfoldable pub trim_start : Str → Str
trim_start [] = []
trim_start (c ∷ s) = let rest = trim_start s in if is_whitespace c then rest else c ∷ s

unfoldable pub trim : Str → Str
unfolding trim_start is_whitespace
trim s = reverse (trim_start (reverse (trim_start s)))
