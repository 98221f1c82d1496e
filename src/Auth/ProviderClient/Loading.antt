-- ===== src/Auth/ProviderClient/Loading.antt =====
-- The loading of the configuration by OIDCManager of cpkit/auth/oidc.py.
use cpkit.Base.{
  ℕ, suc, ◌+◌, String, Bool, true, false, not, ◌&&◌, Option, none, some, str_eq, ltb, ◌==◌,
  if◌then◌else◌,
}
use cpkit.Base.Exec.{ok, err, pure, gets, ◌>>=◌, ◌>>◌}
use cpkit.Jobs.Types.{seconds}
use cpkit.Auth.Access.{AccessConfig}
use cpkit.Auth.Config.{OidcConfig, from_settings}
use cpkit.Auth.ProviderClient.{World, Client, Calls, clear_provider_cache, of_config, read_clock}

abbrev same_option : Option String → Option String → Bool
same_option none none = true
same_option (some s) (some t) = str_eq s t
same_option _ _ = false

abbrev same_bool : Bool → Bool → Bool
same_bool true b = b
same_bool false b = not b

abbrev same_access : AccessConfig → AccessConfig → Bool
same_access a b =
    str_eq a.groups_claim_name b.groups_claim_name
    && str_eq a.ui_username_claim b.ui_username_claim
    && str_eq a.readonly_groups_raw b.readonly_groups_raw
    && str_eq a.user_groups_raw b.user_groups_raw
    && str_eq a.admin_groups_raw b.admin_groups_raw

-- equality of two configurations, field by field
unfoldable pub same_config : OidcConfig → OidcConfig → Bool
same_config c d =
    str_eq c.issuer_url d.issuer_url
    && (same_bool c.enabled d.enabled
        && str_eq c.client_id d.client_id
        && str_eq c.client_secret d.client_secret
        && str_eq c.scopes d.scopes
        && str_eq c.audience d.audience
        && str_eq c.extra_auth_params_raw d.extra_auth_params_raw
        && str_eq c.redirect_uri d.redirect_uri
        && str_eq c.login_path d.login_path
        && (c.session_max_age_seconds == d.session_max_age_seconds)
        && (c.refresh_leeway_seconds == d.refresh_leeway_seconds)
        && same_bool c.cookie_secure d.cookie_secure
        && str_eq c.cookie_samesite d.cookie_samesite
        && same_option c.cookie_domain d.cookie_domain
        && same_bool c.verify_audience d.verify_audience
        && (c.cache_ttl_seconds == d.cache_ttl_seconds)
        && (c.api_key_signature_ttl_seconds == d.api_key_signature_ttl_seconds)
        && same_access c.access d.access)

unfoldable pub set_config : OidcConfig → Calls (Unit {0})
set_config c s = (ok tt, record s { config = c; cache_ttl_seconds = c.cache_ttl_seconds })

unfoldable pub update_provider_config : OidcConfig → Bool → Calls (Unit {0})
update_provider_config c clear_cache = do
  set_config c
  if clear_cache then clear_provider_cache else pure tt

unfoldable pub replace_config : OidcConfig → Calls (Unit {0})
replace_config c =
    gets (λ s. s.config) >>= λ old. update_provider_config c (not (same_config old c))

unfoldable pub set_loaded_at : ℕ → Calls (Unit {0})
set_loaded_at t s = (ok tt, record s { config_loaded_at = t })

module _ {Key : Type 0} (w : World Key) where
  unfoldable pub read_config : Calls OidcConfig
  read_config s = (
    elim (w.stored s.asked) [
      | ok settings ↦ of_config (from_settings w.readers settings)
      | err e ↦ err e
    ],
    record s { asked = suc s.asked },
  )

  unfoldable pub reload_config : ℕ → Calls (Unit {0})
  reload_config now = do new_config ← read_config; replace_config new_config; set_loaded_at now

  abbrev pub is_current : ℕ → Client → Bool
  is_current now s = not (s.config_loaded_at == 0) && ltb now (s.config_loaded_at + seconds 300)

  unfoldable pub load_config : Bool → Calls (Unit {0})
  load_config force = do
    now ← read_clock w
    s ← gets (λ s. s)
    if not force && is_current now s then pure tt else reload_config now
