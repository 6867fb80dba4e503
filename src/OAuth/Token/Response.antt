-- ===== src/OAuth/Token/Response.antt =====
-- The token response, the draws of a request, and the signing of both JWTs.
use sharp_oauth.Prelude.{
  ℕ, ◌/◌, String, Option, none, some, Result, ok, ◌>>?◌, ok_or, map_err, if◌then◌else◌,
}
use sharp_oauth.Error.{AppError, internal}
use sharp_oauth.Platform.{Bytes}
use sharp_oauth.Storage.{Uuid, Time, second, OAuthClient}
use sharp_oauth.Scope.{ScopeSet, openid, contains, to_string, parse}
use sharp_oauth.State.{AppState}
use sharp_oauth.Tokens.Access
use sharp_oauth.Tokens.IdToken

pub data GrantType : Type 0 where
  authorization_code refresh_token : GrantType

pub record TokenResponse : Type 0 where
  pub access_token : String
  pub token_type : String
  pub expires_in : ℕ
  pub scope : String
  pub refresh_token : Option String
  pub id_token : Option String

-- What one token request draws: the clock, the `jti`, and the ids and bytes of a refresh token.
pub record TokenDraw : Type 0 where
  pub now : Time
  pub jti : Uuid
  pub family_id : Uuid
  pub token_id : Uuid
  pub token_bytes : Bytes

abbrev id_token_for :
    AppState
    → OAuthClient
    → Uuid
    → ScopeSet
    → Time
    → Option String
    → Time
    → Result AppError (Option String)
id_token_for app client user_id scope auth_time nonce now =
    if contains scope openid
    then (ok_or internal (
          IdToken.issue app.platform app.signing_keys (
            IdToken.new app.platform app.config.issuer user_id client.client_id auth_time nonce
              now))
        >>? λ token. ok (some token))
    else ok none

unfoldable pub signed_tokens :
    AppState
    → OAuthClient
    → Uuid
    → ScopeSet
    → Time
    → Option String
    → Time
    → Uuid
    → Result AppError TokenResponse
signed_tokens app client user_id scope auth_time nonce now jti =
    ok_or internal (
      Access.issue app.platform app.signing_keys (
        Access.new app.platform app.config.issuer user_id client.client_id scope auth_time now jti))
    >>? λ access_token. id_token_for app client user_id scope auth_time nonce now >>? λ id_token.
        ok (record {
          access_token = access_token;
          token_type = "Bearer";
          expires_in = Access.access_token_ttl / second;
          scope = to_string scope;
          refresh_token = none;
          id_token = id_token;
        })

unfoldable pub stored_scope : String → Result AppError ScopeSet
stored_scope raw = map_err (λ _. internal) (parse raw)
