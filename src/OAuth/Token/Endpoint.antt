-- ===== src/OAuth/Token/Endpoint.antt =====
-- `handle` of the token endpoint and of src/oauth/services/revocation.rs.
pub mod Revocation
use sharp_oauth.Prelude.{
  not, String, Option, none, some, Result, ok, err, ok_or, map_err, ◌==◌, eqb, if◌then◌else◌,
}
use sharp_oauth.Error.{
  AppError, invalid_request, unauthorized_client, unsupported_grant_type, database,
}
use sharp_oauth.Secret.{hash_token}
use sharp_oauth.Storage.{Time, OAuthClient, RefreshToken}
use sharp_oauth.Storage.Conn.{M, pure, throw, lift, on_pool, ◌>>=◌, ◌>>◌}
use sharp_oauth.Storage.RefreshTokens.{find_by_hash, revoke_family}
use sharp_oauth.State.{AppState}
use sharp_oauth.OAuth.Params.{Pairs, Params, from_pairs, get}
use sharp_oauth.OAuth.Client.Credentials.{extract_credentials, authenticate}
use sharp_oauth.OAuth.Token.Response.{
  GrantType, authorization_code, refresh_token, TokenResponse, TokenDraw,
}
use sharp_oauth.OAuth.Token.Code.{exchange_authorization_code}
use sharp_oauth.OAuth.Token.Rotation.{exchange_refresh_token}

unfoldable pub parse_grant_type : Option String → Result AppError GrantType
parse_grant_type none = err (invalid_request "grant_type is required")
parse_grant_type (some raw) =
    if raw == "authorization_code"
    then ok authorization_code
    else if raw == "refresh_token"
    then ok refresh_token
    else err unsupported_grant_type

abbrev pub read_params : Pairs → Result AppError Params
read_params pairs =
    map_err (λ _. invalid_request "parameters must not be repeated") (from_pairs pairs)

abbrev pub dispatch :
    AppState → GrantType → OAuthClient → Params → TokenDraw → M AppError TokenResponse
dispatch app authorization_code client params draw =
    exchange_authorization_code app client params draw
dispatch app refresh_token client params draw = exchange_refresh_token app client params draw

unfoldable pub handle : AppState → Option String → Pairs → TokenDraw → M AppError TokenResponse
handle app authorization_header pairs draw = do
  params ← lift (read_params pairs)
  grant_type ← lift (parse_grant_type (get params "grant_type"))
  credentials ← lift (extract_credentials app.platform authorization_header params)
  client ← authenticate app.platform credentials
  dispatch app grant_type client params draw

-- What revocation does with the token that it finds, if any.
unfoldable pub revoke_found : OAuthClient → Time → Option RefreshToken → M AppError (Unit {0})
revoke_found client now none = pure tt
revoke_found client now (some row) =
    if not (eqb row.client_id client.id)
    then throw (unauthorized_client "the token was not issued to this client")
    else do on_pool database (revoke_family row.family_id now); pure tt

unfoldable pub handle_revocation : AppState → Option String → Pairs → Time → M AppError (Unit {0})
handle_revocation app authorization_header pairs now = do
  params ← lift (read_params pairs)
  credentials ← lift (extract_credentials app.platform authorization_header params)
  client ← authenticate app.platform credentials
  token ← lift (ok_or (invalid_request "token is required") (get params "token"))
  found ← on_pool database (find_by_hash (hash_token app.platform token))
  revoke_found client now found
