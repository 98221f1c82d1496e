-- ===== src/Auth/Claims.antt =====
-- cpkit/auth/claims.py and safe_csv_set of cpkit/config/env.py: group names in claims. Claims are a
-- dictionary of JSON values; a Python tuple or set of texts is an `array`. `repr` is how `str`
-- writes a value that is no text.
pub use cpkit.Base.Value.{is_nonempty, truthy, truthy_at, entries}
use cpkit.Base.{String, Option, some, List, [], ◌∷◌, map, str_eq, if◌then◌else◌, where_rows}
use cpkit.Base.Value.{Value, text, array, Items, nil, cons, Dict, get}
use cpkit.Base.Texts.{strip, split_commas, has_comma, sorted}

-- `str(value)`
abbrev pub str_of : (Value → String) → Value → String
str_of repr (text s) = s
str_of repr v = repr v

-- the set comprehension `{part.strip() for part in … if part.strip()}`
abbrev pub stripped : List String → List String
stripped ss = where_rows is_nonempty (map strip ss)

unfoldable pub safe_csv_set : String → List String
safe_csv_set raw = if str_eq raw "" then [] else stripped (split_commas raw)

unfoldable pub texts_of : (Value → String) → Items → List String
texts_of repr nil = []
texts_of repr (cons v vs) = str_of repr v ∷ texts_of repr vs

unfoldable pub claim_groups : (Value → String) → Option Value → List String
unfolding safe_csv_set
claim_groups repr (some (text s)) = if has_comma s then safe_csv_set s else stripped (s ∷ [])
claim_groups repr (some (array vs)) = stripped (texts_of repr vs)
claim_groups repr _ = []

unfoldable pub claims_groups : (Value → String) → Dict → String → List String
claims_groups repr claims name = claim_groups repr (get name claims)

-- a set or list of texts as a value
abbrev pub items : List String → Items
items [] = nil
items (t ∷ ts) = cons (text t) (items ts)

abbrev pub as_array : List String → Value
as_array ts = array (items ts)

unfoldable pub jsonable_role_groups : (Value → String) → Dict → Dict
jsonable_role_groups repr [] = []
jsonable_role_groups repr ((role, groups) ∷ d) =
    (role, as_array (sorted (claim_groups repr (some groups)))) ∷ jsonable_role_groups repr d
