-- ===== src/Base/Value.antt =====
-- The values of a JSON column or payload, and the dictionaries that hold them.
use cpkit.Base.Tests.{if◌then◌else◌, ◌==◌}
use Prim.Native.Nat.{ℕ}
use Prim.Native.String.{String}
use mathlib.Core.Bool.{Bool, true, false, not}
use mathlib.Core.Option.{Option, none, some}
use mathlib.Core.List.{List, [], ◌∷◌}
use package.text.Mathlib.Text.{◌==◌ as str_eq}

mutual
  pub data Value : Type 0 where
    null : Value
    boolean : Bool → Value
    number : ℕ → Value
    text : String → Value
    array : Items → Value
    object : Fields → Value

  pub data Items : Type 0 where
    nil : Items
    cons : Value → Items → Items

  pub data Fields : Type 0 where
    end : Fields
    field : String → Value → Fields → Fields

module _ {ℓ} {V : Type ℓ} where
  -- `d.get(k)`
  abbrev pub get : String → List (String × V) → Option V
  get k [] = none
  get k ((j, v) ∷ d) = let rest = get k d in if str_eq j k then some v else rest

  -- `{key: value for key, value in d.items() if key != k}`
  abbrev pub without : String → List (String × V) → List (String × V)
  without k [] = []
  without k ((j, v) ∷ d) = let rest = without k d in if str_eq j k then rest else (j, v) ∷ rest

  -- `d[k] = v`: a key that is there keeps its place
  abbrev pub put : String → V → List (String × V) → List (String × V)
  put k v [] = (k, v) ∷ []
  put k v ((j, w) ∷ d) = let rest = put k v d in if str_eq j k then (j, v) ∷ d else (j, w) ∷ rest

abbrev pub Dict : Type 0
Dict = List (String × Value)

abbrev pub is_nonempty : String → Bool
is_nonempty s = not (str_eq s "")

-- `bool(value)`
abbrev pub truthy : Value → Bool
truthy null = false
truthy (boolean b) = b
truthy (number n) = not (n == 0)
truthy (text s) = is_nonempty s
truthy (array nil) = false
truthy (array (cons v vs)) = true
truthy (object end) = false
truthy (object (field k v fs)) = true

abbrev pub truthy_at : Option Value → Bool
truthy_at none = false
truthy_at (some v) = truthy v

-- an object's entries
abbrev pub entries : Fields → Dict
entries end = []
entries (field k v fs) = (k, v) ∷ entries fs

-- `d.update(e)`
abbrev pub update : Dict → Dict → Dict
update d [] = d
update d ((k, v) ∷ e) = update (put k v d) e

-- the value, where a key that is not there and a null are both None
abbrev pub or_null : Option Value → Value
or_null none = null
or_null (some v) = v

abbrev pub is_none : Value → Bool
is_none null = true
is_none v = false

-- `a or b`
abbrev pub either_value : Value → Value → Value
either_value a b = if truthy a then a else b
