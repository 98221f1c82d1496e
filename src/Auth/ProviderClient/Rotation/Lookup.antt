-- ===== src/Auth/ProviderClient/Rotation/Lookup.antt =====
-- The search for a key id in a document of keys, in select_jwk_key of cpkit/auth/oidc.py.
use cpkit.Base.{String, false, Option, none, some, ◌≡◌, refl, sym, ap, ◌∙◌, if_split, eq_iff}
use cpkit.Base.Exec.{ok}
use cpkit.Base.Value.{Value, Items, nil, cons, text, array, object, Dict, get}
use cpkit.Auth.Claims.{entries}
use cpkit.Auth.ProviderClient.Tokens.{is_text, find_item}
use cpkit.Auth.ProviderClient.Listed.{InItems, here, there}

-- every item is a dictionary
abbrev pub AreObjects : Items → Type 0
AreObjects nil = Unit
AreObjects (cons (object fs) vs) = AreObjects vs
AreObjects (cons v vs) = ⊥

-- a document whose `keys` is a list of dictionaries
pub record IsKeyDocument (d : Dict) : Type 0 where
  pub keys : Items
  pub listed : get "keys" d ≡ some (array keys)
  pub objects : AreObjects keys

pub find_item-AreObjects :
    (kid : String) (vs : Items) → AreObjects vs → (o : Option Dict) × (find_item kid vs ≡ ok o)
unfolding find_item
find_item-AreObjects kid nil h = (none, refl)
find_item-AreObjects kid (cons (object fs) vs) h =
    if_split (λ r. (o : Option Dict) × (r ≡ ok o)) (is_text kid (get "kid" (entries fs)))
      (λ b. (some (entries fs), refl)) λ b. find_item-AreObjects kid vs h
find_item-AreObjects kid (cons Value.null vs) h = absurd h
find_item-AreObjects kid (cons (Value.boolean b) vs) h = absurd h
find_item-AreObjects kid (cons (Value.number n) vs) h = absurd h
find_item-AreObjects kid (cons (text t) vs) h = absurd h
find_item-AreObjects kid (cons (array ws) vs) h = absurd h

not_other : {kid : String} (o : Option Value) → o ≡ some (text kid) → is_text kid o ≡ false → ⊥
not_other {kid = kid} o e b = absurd (cc (ap (is_text kid) e, b, (eq_iff kid kid).1 refl))

pub find_item-found :
    (kid : String) (vs : Items) (jwk : Dict)
    → AreObjects vs
    → InItems jwk vs
    → get "kid" jwk ≡ some (text kid)
    → (found : Dict) × (find_item kid vs ≡ ok (some found))
unfolding find_item
find_item-found kid (cons (object fs) vs) jwk objects (here _ _ e) k =
    if_split (λ r. (found : Dict) × (r ≡ ok (some found))) (is_text kid (get "kid" (entries fs)))
      (λ b. (entries fs, refl))
      λ b. absurd (not_other (get "kid" (entries fs)) (ap (get "kid") (sym e) ∙ k) b)
find_item-found kid (cons (object fs) vs) jwk objects (there _ _ m) k =
    if_split (λ r. (found : Dict) × (r ≡ ok (some found))) (is_text kid (get "kid" (entries fs)))
      (λ b. (entries fs, refl)) λ b. find_item-found kid vs jwk objects m k
find_item-found kid nil jwk h m k = elim m [ ]
find_item-found kid (cons Value.null vs) jwk h m k = absurd h
find_item-found kid (cons (Value.boolean b) vs) jwk h m k = absurd h
find_item-found kid (cons (Value.number n) vs) jwk h m k = absurd h
find_item-found kid (cons (text t) vs) jwk h m k = absurd h
find_item-found kid (cons (array ws) vs) jwk h m k = absurd h
