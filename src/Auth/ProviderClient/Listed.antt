-- ===== src/Auth/ProviderClient/Listed.antt =====
-- What the search for a key id finds in a document of keys, in select_jwk_key of cpkit/auth/oidc.py.
use cpkit.Base.{
  String, Bool, true, false, Option, none, some, ◌≡◌, refl, ap, subst, if◌then◌else◌, if_split,
  eq_iff,
}
use cpkit.Base.Exec.{ok}
use cpkit.Base.Value.{
  Value, Fields, Items, nil, cons, end, field, text, array, object, Dict, get, is_nonempty,
}
use cpkit.Auth.Claims.{entries}
use cpkit.Auth.ProviderClient.Tokens.{is_text, find_item, find_jwk}

-- the dictionary is one of the items
pub data InItems (jwk : Dict) : Items → Type 0 where
  here : (fs : Fields) (vs : Items) → jwk ≡ entries fs → InItems jwk (cons (object fs) vs)
  there : (v : Value) (vs : Items) → InItems jwk vs → InItems jwk (cons v vs)

-- The document lists the key under the id.
pub record Lists (d : Dict) (kid : String) (jwk : Dict) : Type 0 where
  pub keys : Items
  pub listed : get "keys" d ≡ some (array keys)
  pub member : InItems jwk keys
  pub has_kid : get "kid" jwk ≡ some (text kid)

is_text-text : (t : String) (o : Option Value) → is_text t o ≡ true → o ≡ some (text t)
is_text-text t none e = absurd (cc e)
is_text-text t (some (text s)) e = ap (λ x. some (text x)) ((eq_iff s t).0 e)
is_text-text t (some Value.null) e = absurd (cc e)
is_text-text t (some (Value.boolean b)) e = absurd (cc e)
is_text-text t (some (Value.number n)) e = absurd (cc e)
is_text-text t (some (array vs)) e = absurd (cc e)
is_text-text t (some (object fs)) e = absurd (cc e)

find_item-InItems :
    (kid : String) (vs : Items) (jwk : Dict)
    → find_item kid vs ≡ ok (some jwk)
    → InItems jwk vs × (get "kid" jwk ≡ some (text kid))
unfolding find_item
find_item-InItems kid nil jwk e = absurd (cc e)
find_item-InItems kid (cons (object fs) vs) jwk e =
    found (is_text kid (get "kid" (entries fs))) refl (find_item-InItems kid vs jwk) e
  where
    found :
        (b : Bool)
        → is_text kid (get "kid" (entries fs)) ≡ b
        → (find_item kid vs ≡ ok (some jwk) → InItems jwk vs × (get "kid" jwk ≡ some (text kid)))
        → (if b then ok (some (entries fs)) else find_item kid vs) ≡ ok (some jwk)
        → InItems jwk (cons (object fs) vs) × (get "kid" jwk ≡ some (text kid))
    found true b rest e = (
      here fs vs (cc e),
      subst (λ x. get "kid" x ≡ some (text kid)) {x = entries fs} {y = jwk} (cc e)
          (is_text-text kid _ b),
    )
    found false b rest e = let (m, k) = rest e in (there (object fs) vs m, k)
find_item-InItems kid (cons Value.null vs) jwk e = absurd (cc e)
find_item-InItems kid (cons (Value.boolean b) vs) jwk e = absurd (cc e)
find_item-InItems kid (cons (Value.number n) vs) jwk e = absurd (cc e)
find_item-InItems kid (cons (text t) vs) jwk e = absurd (cc e)
find_item-InItems kid (cons (array ws) vs) jwk e = absurd (cc e)

pub find_jwk-Lists :
    (kid : String) (d jwk : Dict) → find_jwk kid (get "keys" d) ≡ ok (some jwk) → Lists d kid jwk
find_jwk-Lists kid d jwk e = listed (get "keys" d) refl e
  where
    listed :
        (o : Option Value) → get "keys" d ≡ o → find_jwk kid o ≡ ok (some jwk) → Lists d kid jwk
    listed (some (array vs)) g e =
        let (m, k) = find_item-InItems kid vs jwk e in
        record { keys = vs; listed = g; member = m; has_kid = k }
    listed none g e = absurd (cc e)
    listed (some Value.null) g e = absurd (cc e)
    listed (some (Value.boolean b)) g e = absurd (cc e)
    listed (some (Value.number n)) g e = absurd (cc e)
    listed (some (text t)) g e =
        if_split (λ r. r ≡ ok (some jwk) → Lists d kid jwk) (is_nonempty t) (λ b e. absurd (cc e))
          (λ b e. absurd (cc e)) e
    listed (some (object end)) g e = absurd (cc e)
    listed (some (object (field k v fs))) g e = absurd (cc e)
