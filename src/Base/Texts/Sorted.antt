-- ===== src/Base/Texts/Sorted.antt =====
-- Sorting a set of texts keeps its members.
use Prim.Native.String.{String}
use mathlib.Core.Path.{◌≡◌, refl}
use mathlib.Core.Bool.{◌||◌}
use mathlib.Core.List.{List, [], ◌∷◌}
use native.Mathlib.Omega.{arith}
use package.text.Mathlib.Text.{◌==◌ as str_eq}
use package.text.Mathlib.TextEquality.{eq_iff}
use cpkit.Base.Texts.{contains, insert_text, sorted}

contains-insert_text :
    (y x : String) (xs : List String)
    → contains (insert_text y xs) x ≡ (str_eq y x || contains xs x)
unfolding insert_text
contains-insert_text y x [] = refl
contains-insert_text y x (z ∷ zs) =
    ground (arith, eq_iff y z, eq_iff y x, eq_iff z x, contains-insert_text y x zs)

pub contains-sorted : (xs : List String) (x : String) → contains (sorted xs) x ≡ contains xs x
unfolding sorted
contains-sorted [] x = refl
contains-sorted (y ∷ ys) x =
    ground (arith, contains-insert_text y x (sorted ys), contains-sorted ys x)
