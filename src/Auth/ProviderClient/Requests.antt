-- ===== src/Auth/ProviderClient/Requests.antt =====
-- The login URL and the token requests of OIDCProviderClient in cpkit/auth/oidc.py.
use cpkit.Base.{String, Bool, some, [], ◌∷◌, if◌then◌else◌}
use cpkit.Base.Exec.{pure, lift, gets, ◌>>=◌}
use cpkit.Base.Value.{Dict, put, is_nonempty}
use cpkit.Base.Texts.{followed_by}
use cpkit.Auth.Config.{extra_auth_params}
use cpkit.Auth.ProviderClient.{
  Params, World, Calls, of_config, http_json, request, get_metadata, endpoint,
}

-- `d.update(e)` of dictionaries of texts
abbrev pub updated : Params → Params → Params
updated d [] = d
updated d ((k, v) ∷ e) = updated (put k v d) e

abbrev audience_if : Bool → String → Params
audience_if b audience = if b then ("audience", audience) ∷ [] else []

module _ {Key : Type 0} (w : World Key) where
  unfoldable pub build_authorization_url : String → String → String → Calls String
  build_authorization_url redirect_uri state nonce = do
    metadata ← get_metadata w
    auth_endpoint ← lift (endpoint w "authorization_endpoint" metadata)
    c ← gets (λ s. s.config)
    extra ← lift (of_config (extra_auth_params w.readers c))
    pure (
        followed_by auth_endpoint (
          followed_by "?" (
            w.urlencode (
              updated
                (("response_type", "code")
                  ∷ ("client_id", c.client_id)
                  ∷ ("redirect_uri", redirect_uri)
                  ∷ ("scope", c.scopes)
                  ∷ ("state", state)
                  ∷ ("nonce", nonce)
                  ∷ audience_if (is_nonempty c.audience) c.audience)
                extra))))

  unfoldable pub exchange_code : String → String → Calls Dict
  exchange_code code redirect_uri = do
    metadata ← get_metadata w
    token_endpoint ← lift (endpoint w "token_endpoint" metadata)
    c ← gets (λ s. s.config)
    extra ← lift (of_config (extra_auth_params w.readers c))
    http_json w (
        request w "POST" token_endpoint (
          some (
            updated
              (("grant_type", "authorization_code")
                ∷ ("code", code)
                ∷ ("client_id", c.client_id)
                ∷ ("client_secret", c.client_secret)
                ∷ ("redirect_uri", redirect_uri)
                ∷ [])
              extra)))

  unfoldable pub refresh_tokens : String → Calls Dict
  refresh_tokens refresh_token = do
    metadata ← get_metadata w
    token_endpoint ← lift (endpoint w "token_endpoint" metadata)
    c ← gets (λ s. s.config)
    http_json w (
        request w "POST" token_endpoint (
          some (
            ("grant_type", "refresh_token")
            ∷ ("refresh_token", refresh_token)
            ∷ ("client_id", c.client_id)
            ∷ ("client_secret", c.client_secret)
            ∷ [])))
