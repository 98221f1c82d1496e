-- ===== src/Base/Texts.antt =====
-- The methods of Python's `str` that the code calls, and sets of texts as lists.
pub mod Sorted
use cpkit.Base.Tests.{if◌then◌else◌, ◌==◌, leb}
use cpkit.Base.Lists.{any, where_rows}
use Prim.Native.Nat.{ℕ}
use Prim.Native.Char.{Char, code}
use Prim.Native.String.{String, compare, ◌++◌}
use mathlib.Core.Bool.{Bool, true, false, not, ◌&&◌, ◌||◌}
use mathlib.Core.List.{List, [], ◌∷◌, map}
use package.text.Mathlib.Text.{◌==◌ as str_eq, is_lt}

-- the characters that `str.strip` removes
abbrev is_space : ℕ → Bool
is_space c =
    (leb 9 c && leb c 13)
    || (leb 28 c && leb c 32)
    || (c == 133)
    || (c == 160)
    || (c == 5760)
    || (leb 8192 c && leb c 8202)
    || (c == 8232)
    || (c == 8233)
    || (c == 8239)
    || (c == 8287)
    || (c == 12288)

lstrip : String → String
lstrip String.[] = ""
lstrip (String.◌∷◌ c s) = let rest = lstrip s in if is_space (code c) then rest else String.◌∷◌ c s

rstrip : String → String
rstrip String.[] = ""
rstrip (String.◌∷◌ c s) =
    let rest = rstrip s in if is_space (code c) && str_eq rest "" then "" else String.◌∷◌ c rest

-- `s.strip()`
unfoldable pub strip : String → String
unfolding lstrip rstrip
strip s = rstrip (lstrip s)

abbrev in_first : Char → List String → List String
in_first c [] = String.◌∷◌ c "" ∷ []
in_first c (t ∷ ts) = String.◌∷◌ c t ∷ ts

-- `s.split(",")`
unfoldable pub split_commas : String → List String
split_commas String.[] = "" ∷ []
split_commas (String.◌∷◌ c s) =
    let rest = split_commas s in if code c == b',' then "" ∷ rest else in_first c rest

-- `"," in s`
unfoldable pub has_comma : String → Bool
has_comma String.[] = false
has_comma (String.◌∷◌ c s) = (code c == b',') || has_comma s

abbrev pub contains : List String → String → Bool
contains xs x = any (λ y. str_eq y x) xs

abbrev pub is_disjoint : List String → List String → Bool
is_disjoint xs ys = not (any (contains ys) xs)

abbrev pub is_before : String → String → Bool
is_before s t = is_lt (compare s t)

insert_text : String → List String → List String
insert_text x [] = x ∷ []
insert_text x (y ∷ ys) =
    let rest = insert_text x ys in
    if str_eq x y then y ∷ ys else if is_before x y then x ∷ y ∷ ys else y ∷ rest

-- `sorted` on a set: each text once, by code points
unfoldable pub sorted : List String → List String
unfolding insert_text
sorted [] = []
sorted (x ∷ xs) = insert_text x (sorted xs)

abbrev pub followed_by : String → String → String
followed_by s t = s ++ t

-- `", ".join(...)`
unfoldable pub join_commas : List String → String
join_commas [] = ""
join_commas (x ∷ []) = x
join_commas (x ∷ y ∷ ys) = followed_by x (followed_by ", " (join_commas (y ∷ ys)))
