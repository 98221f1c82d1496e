-- ===== src/Auth/ApiKeys/Roles.antt =====
-- An API key's claims have the roles of the key and no other.
use cpkit.Base.{
  String, ◌≡◌, refl, ap, ◌∙◌, ◌↔◌, Bool, true, false, not, ◌&&◌, Option, none, some, List, [], ◌∷◌,
  arith, str_eq, eq_iff, if◌then◌else◌, any, All, Bool-cases, inl, inr, subst,
}
use cpkit.Base.Exec.{ok}
use cpkit.Base.Value.{Value, get}
use cpkit.Base.Texts.{strip, contains, is_disjoint}
use cpkit.Auth.Claims.{
  is_nonempty, stripped, texts_of, claim_groups, claims_groups, items, as_array, entries, truthy_at,
}
use cpkit.Auth.Access.{
  AccessConfig, Role, named, member, role_value, get_role, or_value, is_empty, grants,
  ensure_any_role, user_groups,
}
use cpkit.Auth.Access.Scope.{any_ext}
use cpkit.Auth.ApiKeys.{ApiKey, role_entries, key_claims}

-- The roles are trimmed texts and not empty.
abbrev pub AreTrimmed : List String → Type 0
AreTrimmed rs = All (λ r. (strip r ≡ r) × (is_nonempty r ≡ true)) rs

texts_of-items : (repr : Value → String) (rs : List String) → texts_of repr (items rs) ≡ rs
unfolding texts_of
texts_of-items repr [] = refl
texts_of-items repr (r ∷ rs) = ap (λ ts. r ∷ ts) (texts_of-items repr rs)

stripped-AreTrimmed : (rs : List String) → AreTrimmed rs → stripped rs ≡ rs
stripped-AreTrimmed [] h = refl
stripped-AreTrimmed (r ∷ rs) h = rw (h.0.0, h.0.1, stripped-AreTrimmed rs h.1) refl

get-role_entries :
    (role : String) (rs : List String)
    → get role (entries (role_entries rs))
      ≡ (if contains rs role then some (as_array (role ∷ [])) else none)
get-role_entries role [] = refl
get-role_entries role (r ∷ rs) = ground (arith, eq_iff r role, get-role_entries role rs)

contains_trimmed :
    (rs : List String) (s : String)
    → AreTrimmed rs
    → contains rs s ≡ true
    → (strip s ≡ s) × (is_nonempty s ≡ true)
contains_trimmed [] s h e = cc e
contains_trimmed (r ∷ rs) s h e = elim (Bool-cases (str_eq r s)) [
  | inl same ↦
      subst (λ (t : String). (strip t ≡ t) × (is_nonempty t ≡ true)) ((eq_iff r s).0 same) h.0
  | inr other ↦ contains_trimmed rs s h.1 (rw other at e)
]

module _ (repr : Value → String) (c : AccessConfig) where
  groups_of-as_array :
      (rs : List String) → AreTrimmed rs → claim_groups repr (some (as_array rs)) ≡ rs
  unfolding claim_groups
  groups_of-as_array rs h = ap stripped (texts_of-items repr rs) ∙ stripped-AreTrimmed rs h

  -- what the claims of a key grant for one entry of its role groups
  abbrev granted : List String → Option Value → Bool
  granted rs found = truthy_at found && not (is_disjoint (claim_groups repr found) rs)

  granted-contains :
      (rs : List String) (s : String)
      → AreTrimmed rs
      → granted rs (if contains rs s then some (as_array (s ∷ [])) else none) ≡ contains rs s
  granted-contains rs s h = elim (Bool-cases (contains rs s)) [
    | inl there ↦
        rw (there, groups_of-as_array (s ∷ []) (contains_trimmed rs s h there, tt), there) refl
    | inr absent ↦ rw absent refl
  ]

  or_value_same : (o : Option Value) → or_value o o ≡ o
  or_value_same none = refl
  or_value_same (some v) = ground arith

  found-role_entries :
      (rs : List String) (r : Role)
      → or_value
          (get_role r (entries (role_entries rs)))
          (get (role_value r) (entries (role_entries rs)))
        ≡ (if contains rs (role_value r) then some (as_array (role_value r ∷ [])) else none)
  found-role_entries rs (named s) = or_value_same _ ∙ get-role_entries s rs
  found-role_entries rs (member v) = get-role_entries v rs

  grants-contains :
      (rs : List String)
      → AreTrimmed rs
      → (r : Role) → grants repr c (entries (role_entries rs)) rs r ≡ contains rs (role_value r)
  grants-contains rs h r =
      ap (granted rs) (found-role_entries rs r) ∙ granted-contains rs (role_value r) h

  has_role_nonempty :
      (rs : List String) (roles : List Role)
      → is_empty rs ≡ true
      → any (λ r. contains rs (role_value r)) roles ≡ false
  has_role_nonempty rs [] e = refl
  has_role_nonempty [] (r ∷ roles) e = has_role_nonempty [] roles e
  has_role_nonempty (x ∷ rs) (r ∷ roles) e = cc e

  user_groups-key_claims :
      (k : ApiKey) → AreTrimmed k.roles → user_groups repr c (key_claims k) ≡ k.roles
  unfolding key_claims claims_groups
  user_groups-key_claims k h = groups_of-as_array k.roles h

  -- For a key whose roles are trimmed and not empty, whatever the configuration of the groups: its
  -- claims pass the test for any one of some roles exactly when one of these is a role of the key.
  pub ensure_any_role-key_claims :
      (k : ApiKey) (roles : List Role)
      → AreTrimmed k.roles
      → (ensure_any_role repr c (key_claims k) roles ≡ ok (key_claims k))
        ↔ (any (λ r. contains k.roles (role_value r)) roles ≡ true)
  unfolding ensure_any_role key_claims claims_groups
  ensure_any_role-key_claims k roles h =
      rw (user_groups-key_claims k h, any_ext _ _ (grants-contains k.roles h) roles)
        (ground (arith, has_role_nonempty k.roles roles))
