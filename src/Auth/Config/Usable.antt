-- ===== src/Auth/Config/Usable.antt =====
-- What validate of cpkit/auth/config.py accepts.
use cpkit.Base.{
  not-false, String, Bool, true, false, not, ◌&&◌, List, [], ◌∷◌, ◌≡◌, ◌≢◌, refl, ap, subst, sym,
  ◌∙◌, arith, ◌↔◌, ◌⊎◌, str_eq, eq_iff, if◌then◌else◌,
}
use cpkit.Base.Exec.{Result, ok, err}
use cpkit.Base.Results.{◌>>=◌, raise_if, raise_if-returns}
use cpkit.Base.Texts.{contains, followed_by, join_commas}
use cpkit.Auth.Access.{authorized_groups, is_empty}
use cpkit.Auth.Config.{
  OidcConfig, ConfigFailure, runtime_error, Readers, extra_auth_params, missing_settings,
  validate_rest, validate,
}

-- The configuration can serve logins: a provider and its client are named, the cookie's settings
-- agree, the claims are named, some group is admitted and the extra parameters can be read.
pub record IsUsable (r : Readers) (c : OidcConfig) : Type 0 where
  pub issuer_url_given : c.issuer_url ≢ ""
  pub client_id_given : c.client_id ≢ ""
  pub client_secret_given : c.client_secret ≢ ""
  pub samesite :
      (c.cookie_samesite ≡ "lax") ⊎ (c.cookie_samesite ≡ "strict") ⊎ (c.cookie_samesite ≡ "none")
  pub none_is_secure : (c.cookie_samesite ≢ "none") ⊎ (c.cookie_secure ≡ true)
  pub ui_username_claim_given : c.access.ui_username_claim ≢ ""
  pub groups_claim_given : c.access.groups_claim_name ≢ ""
  pub group_admitted : authorized_groups c.access ≢ []
  pub params_read : (params : List (String × String)) × (extra_auth_params r c ≡ ok params)

not_empty : (g : List String) → (is_empty g ≡ false) ↔ (g ≢ [])
not_empty [] = (λ e q. cc e, λ h. absurd (h refl))
not_empty (x ∷ g) = (λ e q. cc q, λ h. refl)

given_iff : (s : String) → (not (str_eq s "") ≡ true) ↔ (s ≢ "")
given_iff s = ground (arith, eq_iff s "")

missing-none :
    (c : OidcConfig)
    → (is_empty (missing_settings c) ≡ true)
      ↔ ((c.issuer_url ≢ "") × (c.client_id ≢ "") × (c.client_secret ≢ ""))
unfolding missing_settings
missing-none c =
    ground (arith, eq_iff c.issuer_url "", eq_iff c.client_id "", eq_iff c.client_secret "")

samesite_iff :
    (s : String)
    → (contains ("lax" ∷ "strict" ∷ "none" ∷ []) s ≡ true)
      ↔ ((s ≡ "lax") ⊎ (s ≡ "strict") ⊎ (s ≡ "none"))
samesite_iff s = ground (arith, eq_iff "lax" s, eq_iff "strict" s, eq_iff "none" s)

secure_iff :
    (s : String) (b : Bool) → ((str_eq s "none" && not b) ≡ false) ↔ ((s ≢ "none") ⊎ (b ≡ true))
secure_iff s b = ground (arith, eq_iff s "none")

accepted_iff :
    {A : Type 0} {E : Type 0} (b : Bool) (e : E) (r : Result E A) (a : A)
    → (raise_if b e r ≡ ok a) ↔ ((b ≡ false) × (r ≡ ok a))
accepted_iff b e r a = (raise_if-returns b e r a, λ (f, q). ap (λ x. raise_if x e r) f ∙ q)

checked_iff :
    (r : Readers) (c : OidcConfig)
    → ((extra_auth_params r c >>= λ params. ok (tt {0})) ≡ ok tt)
      ↔ ((params : List (String × String)) × (extra_auth_params r c ≡ ok params))
checked_iff r c = (read (extra_auth_params r c), λ (params, e). ap (λ x. x >>= λ params. ok tt) e)
  where
    read :
        (x : Result ConfigFailure (List (String × String)))
        → (x >>= λ params. ok (tt {0})) ≡ ok tt
        → (params : List (String × String)) × (x ≡ ok params)
    read (ok params) e = (params, refl)
    read (err f) e = absurd (cc e)

-- the settings that validate looks at one after another
rest-IsUsable :
    (r : Readers) (c : OidcConfig)
    → is_empty (missing_settings c) ≡ true
    → validate_rest r c ≡ ok tt
    → IsUsable r c
unfolding validate_rest
rest-IsUsable r c m h =
    let (same, h1) = raise_if-returns _ _ _ _ h in
    let (secure, h2) = raise_if-returns _ _ _ _ h1 in
    let (username, h3) = raise_if-returns _ _ _ _ h2 in
    let (groups, h4) = raise_if-returns _ _ _ _ h3 in
    let (admitted, h5) = raise_if-returns _ _ _ _ h4 in
    let (issuer, client, secret) = (missing-none c).0 m in
    record {
      issuer_url_given = issuer;
      client_id_given = client;
      client_secret_given = secret;
      samesite = (samesite_iff c.cookie_samesite).0 (not-false _ same);
      none_is_secure = (secure_iff c.cookie_samesite c.cookie_secure).0 secure;
      ui_username_claim_given = (given_iff c.access.ui_username_claim).0 (not-false _ username);
      groups_claim_given = (given_iff c.access.groups_claim_name).0 (not-false _ groups);
      group_admitted = (not_empty (authorized_groups c.access)).0 admitted;
      params_read = (checked_iff r c).0 h5;
    }

passed :
    {E A : Type 0} (b : Bool) (e : E) (r : Result E A) (a : A)
    → b ≡ false
    → r ≡ ok a
    → raise_if b e r ≡ ok a
passed b e r a f q = (accepted_iff b e r a).1 (f, q)

not-true : (b : Bool) → b ≡ true → not b ≡ false
not-true b e = ap not e

IsUsable-rest : (r : Readers) (c : OidcConfig) → IsUsable r c → validate_rest r c ≡ ok tt
unfolding validate_rest
IsUsable-rest r c u = passed _ _ _ _ (not-true _ ((samesite_iff c.cookie_samesite).1 u.samesite)) (
    passed _ _ _ _ ((secure_iff c.cookie_samesite c.cookie_secure).1 u.none_is_secure) (
      passed _ _ _ _
        (not-true _ ((given_iff c.access.ui_username_claim).1 u.ui_username_claim_given))
        (passed _ _ _ _ (not-true _ ((given_iff c.access.groups_claim_name).1 u.groups_claim_given))
          (passed _ _ _ _ ((not_empty (authorized_groups c.access)).1 u.group_admitted)
            ((checked_iff r c).1 u.params_read)))))

-- An enabled configuration passes `validate` exactly if it can serve logins.
pub validate_iff :
    (r : Readers) (c : OidcConfig) → c.enabled ≡ true → (validate r c ≡ ok tt) ↔ IsUsable r c
unfolding validate
validate_iff r c on =
    subst (λ b. ((if not b then ok tt else checks) ≡ ok tt) ↔ IsUsable r c) (sym on)
      (
        λ h. let (m, h1) = raise_if-returns _ _ _ _ h in rest-IsUsable r c (not-false _ m) h1,
        λ u.
            passed _ _ _ _
              (not-true _
                ((missing-none c).1 (u.issuer_url_given, u.client_id_given, u.client_secret_given)))
              (IsUsable-rest r c u),
      )
  where
    checks : Result ConfigFailure (Unit {0})
    checks =
        raise_if (not (is_empty (missing_settings c)))
          (runtime_error (
            followed_by "OIDC is enabled but missing required settings: "
              (join_commas (missing_settings c))))
          (validate_rest r c)
