-- ===== src/Auth/Access.antt =====
-- ensure_authorized and ensure_any_role of cpkit/auth/oidc.py, the dependencies of
-- cpkit/auth/dependencies.py that decide by roles, and the groups of cpkit/auth/config.py. A role is
-- a text or a member of an enumeration that is none, which no key of a dictionary of texts equals.
pub mod Scope
use cpkit.Base.{
  ℕ, String, Bool, true, false, not, ◌&&◌, ◌||◌, Option, none, some, List, [], ◌∷◌, ◌++◌, map,
  str_eq, if◌then◌else◌, any,
}
use cpkit.Base.Exec.{Result, ok, err}
use cpkit.Base.Value.{Value, text, object, Dict, get}
use cpkit.Base.Texts.{followed_by, join_commas, is_disjoint, sorted}
use cpkit.Errors.{HttpException}
use cpkit.Auth.Claims.{
  truthy, truthy_at, str_of, claims_groups, claim_groups, as_array, entries, safe_csv_set,
}

-- The fields of OIDCConfig that authorization reads.
pub record AccessConfig : Type 0 where
  pub groups_claim_name : String
  pub ui_username_claim : String
  pub readonly_groups_raw : String
  pub user_groups_raw : String
  pub admin_groups_raw : String

pub data Role : Type 0 where
  named : String → Role
  member : (value : String) → Role

abbrev pub role_value : Role → String
role_value (named s) = s
role_value (member v) = v

-- `d.get(role)`
abbrev pub get_role : Role → Dict → Option Value
get_role (named s) d = get s d
get_role (member v) d = none

unfoldable pub role_groups : AccessConfig → Dict
unfolding safe_csv_set
role_groups c =
    ("CP_READONLY", as_array (safe_csv_set c.readonly_groups_raw))
    ∷ ("CP_USER", as_array (safe_csv_set c.user_groups_raw))
    ∷ ("CP_ADMIN", as_array (safe_csv_set c.admin_groups_raw))
    ∷ []

unfoldable pub authorized_groups : AccessConfig → List String
authorized_groups c =
    safe_csv_set c.readonly_groups_raw
    ++ safe_csv_set c.user_groups_raw
    ++ safe_csv_set c.admin_groups_raw

abbrev pub is_empty : List String → Bool
is_empty [] = true
is_empty (g ∷ gs) = false

abbrev pub forbidden : String → HttpException
forbidden detail = record { status_code = 403; detail = detail }

abbrev pub no_groups : String → HttpException
no_groups name =
    forbidden (followed_by "Forbidden: no groups found in claim '" (followed_by name "'."))

-- `x or y` of two values that a dictionary may lack
abbrev pub or_value : Option Value → Option Value → Option Value
or_value none w = w
or_value (some v) w = if truthy v then some v else w

module _ (repr : Value → String) (c : AccessConfig) where
  abbrev name_or_default : Option Value → String
  name_or_default none = c.groups_claim_name
  name_or_default (some v) = str_of repr v

  abbrev pub groups_name : Dict → String
  groups_name claims = name_or_default (get "_groups_claim_name" claims)

  abbrev pub user_groups : Dict → List String
  user_groups claims = claims_groups repr claims (groups_name claims)

  abbrev dict_or_default : Option Value → Dict
  dict_or_default (some (object fs)) = entries fs
  dict_or_default _ = role_groups c

  abbrev pub effective_roles : Dict → Dict
  effective_roles claims = dict_or_default (get "_role_groups" claims)

  -- the test of the loops over roles: one of the groups has the role
  -- in both copies, of cpkit/auth/oidc.py and _role_groups_intersect of cpkit/auth/dependencies.py
  abbrev pub grants : Dict → List String → Role → Bool
  grants roles groups role =
      let found = or_value (get_role role roles) (get (role_value role) roles) in
      truthy_at found && not (is_disjoint (claim_groups repr found) groups)

  unfoldable pub ensure_authorized : Dict → Result HttpException Dict
  ensure_authorized claims =
      if truthy_at (get "auth_disabled" claims)
      then ok claims
      else if is_empty (user_groups claims)
      then err (no_groups (groups_name claims))
      else if is_disjoint (authorized_groups c) (user_groups claims)
      then err (forbidden "Forbidden: user is not in any allowed group.")
      else ok claims

  unfoldable pub ensure_any_role : Dict → List Role → Result HttpException Dict
  ensure_any_role claims roles =
      if truthy_at (get "auth_disabled" claims)
      then ok claims
      else if is_empty (user_groups claims)
      then err (no_groups (groups_name claims))
      else if any (grants (effective_roles claims) (user_groups claims)) roles
      then ok claims
      else err (
          forbidden (
            followed_by "Forbidden: requires one of roles ["
              (followed_by (join_commas (map role_value roles)) "].")))

  -- the dependencies that create_auth_dependencies makes; `get` says that the method is GET
  unfoldable pub require_readonly : List Role → List Role → Bool → Dict → Result HttpException Dict
  require_readonly readonly_roles user_roles is_get claims =
      if is_get
      then ensure_any_role claims (readonly_roles ++ user_roles)
      else ensure_any_role claims user_roles

  unfoldable pub get_access_scope : List Role → Dict → List String × Bool
  get_access_scope admin_roles claims =
      if truthy_at (get "auth_disabled" claims)
      then ([], true)
      else let groups = sorted (user_groups claims) in
        (groups, any (grants (effective_roles claims) groups) admin_roles)

  abbrev text_or_anonymous : Option Value → String
  text_or_anonymous none = "anonymous"
  text_or_anonymous (some v) = if truthy v then str_of repr v else "anonymous"

  abbrev is_api_key : Option Value → Bool
  is_api_key (some (text s)) = str_eq s "api_key"
  is_api_key _ = false

  unfoldable pub get_audit_actor : Dict → String
  get_audit_actor claims =
      if is_api_key (get "auth_type" claims)
      then text_or_anonymous (get "access_key" claims)
      else text_or_anonymous (or_value (get c.ui_username_claim claims) (get "sub" claims))
