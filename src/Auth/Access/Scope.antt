-- ===== src/Auth/Access/Scope.antt =====
-- The places that decide by roles agree with one another.
use cpkit.Base.{
  String, ◌≡◌, refl, ap, ◌↔◌, ◌⊎◌, Bool, true, false, not, ◌&&◌, ◌||◌, List, [], ◌∷◌, ◌++◌, arith,
  any,
}
use cpkit.Base.Exec.{ok}
use cpkit.Base.Value.{Value, Dict, get}
use cpkit.Base.Texts.{contains, is_disjoint, sorted}
use cpkit.Base.Texts.Sorted.{contains-sorted}
use cpkit.Auth.Claims.{truthy_at, claim_groups}
use cpkit.Auth.Access.{
  AccessConfig, Role, role_value, get_role, or_value, is_empty, user_groups, effective_roles,
  grants, ensure_any_role, require_readonly, get_access_scope,
}

module _ {ℓ} {A : Type ℓ} where
  pub any_ext : (p q : A → Bool) → ((x : A) → p x ≡ q x) → (xs : List A) → any p xs ≡ any q xs
  any_ext p q h [] = refl
  any_ext p q h (x ∷ xs) = rw (h x, any_ext p q h xs) refl

  any_none : (p : A → Bool) → ((x : A) → p x ≡ false) → (xs : List A) → any p xs ≡ false
  any_none p h [] = refl
  any_none p h (x ∷ xs) = rw (h x, any_none p h xs) refl

  any-append : (p : A → Bool) (xs ys : List A) → any p (xs ++ ys) ≡ (any p xs || any p ys)
  any-append p [] ys = refl
  any-append p (x ∷ xs) ys = ground (arith, any-append p xs ys)

is_disjoint-sorted : (xs ys : List String) → is_disjoint xs (sorted ys) ≡ is_disjoint xs ys
is_disjoint-sorted xs ys =
    ap not (any_ext (contains (sorted ys)) (contains ys) (contains-sorted ys) xs)

module _ (repr : Value → String) (c : AccessConfig) where
  grants-sorted :
      (roles : Dict) (groups : List String) (r : Role)
      → grants repr c roles (sorted groups) r ≡ grants repr c roles groups r
  grants-sorted roles groups r =
      let found = or_value (get_role r roles) (get (role_value r) roles) in
      ap (λ b. truthy_at found && not b) (is_disjoint-sorted (claim_groups repr found) groups)

  grants_no_group : (roles : Dict) (r : Role) → grants repr c roles [] r ≡ false
  grants_no_group roles r =
      let found = or_value (get_role r roles) (get (role_value r) roles) in
      rw (any_none (contains []) (λ x. refl) (claim_groups repr found)) (ground arith)

  -- no group, no role
  granted_needs_group :
      (roles : Dict) (groups : List String) (rs : List Role)
      → is_empty groups ≡ true
      → any (grants repr c roles groups) rs ≡ false
  granted_needs_group roles [] rs e = any_none _ (grants_no_group roles) rs
  granted_needs_group roles (g ∷ gs) rs e = cc e

  -- For every claims, groups claim and role groups: the admin flag of an access scope is set
  -- exactly when the admin dependency lets the caller through.
  pub get_access_scope-ensure_any_role :
      (admin_roles : List Role) (claims : Dict)
      → ((get_access_scope repr c admin_roles claims).1 ≡ true)
        ↔ (ensure_any_role repr c claims admin_roles ≡ ok claims)
  unfolding get_access_scope ensure_any_role
  get_access_scope-ensure_any_role admin_roles claims = ground (
    arith,
    any_ext _ _ (grants-sorted (effective_roles repr c claims) (user_groups repr c claims))
        admin_roles,
    granted_needs_group (effective_roles repr c claims) (user_groups repr c claims) admin_roles,
  )

  -- For GET the read-only dependency accepts exactly the callers that have a read-only role or a
  -- user role, and for the other methods exactly those that have a user role; so who may write may
  -- always read.
  pub require_readonly_iff :
      (readonly_roles user_roles : List Role) (claims : Dict)
      → ((require_readonly repr c readonly_roles user_roles true claims ≡ ok claims) ↔ (
          (ensure_any_role repr c claims readonly_roles ≡ ok claims)
          ⊎ (ensure_any_role repr c claims user_roles ≡ ok claims)))
        × ((require_readonly repr c readonly_roles user_roles false claims ≡ ok claims)
            ↔ (ensure_any_role repr c claims user_roles ≡ ok claims))
  unfolding require_readonly ensure_any_role
  require_readonly_iff readonly_roles user_roles claims = ground (
    arith,
    any-append (grants repr c (effective_roles repr c claims) (user_groups repr c claims))
        readonly_roles user_roles,
  )
