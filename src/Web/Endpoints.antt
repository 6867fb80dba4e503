-- ===== src/Web/Endpoints.antt =====
-- src/oauth/controllers/token.rs and src/oidc/controllers: the endpoints that client applications
-- call. Serialising a result to JSON is serde's work.
use sharp_oauth.Prelude.{
  ℕ, Bool, true, false, String, List, Option, none, some, Result, ok, err, keep_if, and_then,
  split_once,
}
use sharp_oauth.Error.{AppError, ErrorResponse, invalid_request, into_response}
use sharp_oauth.Platform.{Platform}
use sharp_oauth.State.{AppState}
use sharp_oauth.Keys
use sharp_oauth.Storage.{Time}
use sharp_oauth.Storage.Conn.{M, pure, attempt, ◌>>=◌}
use sharp_oauth.OAuth.Params.{Pairs}
use sharp_oauth.OAuth.Client.Credentials.{has_scheme}
use sharp_oauth.OAuth.Token.Response.{TokenResponse, TokenDraw}
use sharp_oauth.OAuth.Token.Endpoint.{handle, handle_revocation}
use sharp_oauth.Oidc.{Object}
use sharp_oauth.Oidc.Discovery
use sharp_oauth.Oidc.Userinfo
use sharp_oauth.Oidc.Userinfo.{UserInfoError, invalid_token, insufficient_scope}
use sharp_oauth.Web.Http.{Headers}

pub data ApiBody : Type 0 where
  tokens : TokenResponse → ApiBody
  object : Object → ApiBody
  key_set : List ℕ → ApiBody
  failure : ErrorResponse → ApiBody
  bearer_challenge : String → ApiBody
  empty : ApiBody

-- `pragma` says whether `Pragma: no-cache` is set; `cache_control` is the header, if the handler
-- sets one.
pub record ApiResponse : Type 0 where
  pub status : ℕ
  pub body : ApiBody
  pub pragma : Bool
  pub cache_control : Option String

abbrev respond : ℕ → ApiBody → ApiResponse
respond status body = record { status = status; body = body; pragma = false; cache_control = none }

abbrev pub refusal : AppError → ApiResponse
unfolding into_response
refusal e = respond (into_response e).status (failure (into_response e))

abbrev pub bad_form : ApiResponse
bad_form = refusal (invalid_request "the body must be application/x-www-form-urlencoded")

abbrev token_answer : Result AppError TokenResponse → ApiResponse
token_answer (ok response) = respond 200 (tokens response)
token_answer (err e) = refusal e

-- A body that is no form is `none`.
abbrev token_response : AppState → Headers → Option Pairs → TokenDraw → M ApiResponse ApiResponse
token_response app headers none draw = pure bad_form
token_response app headers (some pairs) draw = do
  outcome ← attempt (handle app headers.authorization pairs draw)
  pure (token_answer outcome)

unfoldable pub token : AppState → Headers → Option Pairs → TokenDraw → M ApiResponse ApiResponse
token app headers form draw = do
  response ← token_response app headers form draw
  pure (record response { pragma = true })

abbrev revoke_answer : Result AppError (Unit {0}) → ApiResponse
revoke_answer (ok _) = respond 200 empty
revoke_answer (err e) = refusal e

unfoldable pub revoke : AppState → Headers → Option Pairs → Time → M ApiResponse ApiResponse
revoke app headers none now = pure bad_form
revoke app headers (some pairs) now = do
  outcome ← attempt (handle_revocation app headers.authorization pairs now)
  pure (revoke_answer outcome)

abbrev trimmed_second : Platform → Option (String × String) → Option String
trimmed_second p none = none
trimmed_second p (some (_, token)) = some (p.trim token)

-- The token of a `Bearer` header.
unfoldable pub bearer_token : Platform → Option String → Option String
bearer_token p authorization =
    trimmed_second p
      (and_then (keep_if (λ value. has_scheme value "Bearer") authorization) (split_once b' '))

abbrev pub bearer_error : ℕ → String → ApiResponse
bearer_error status challenge = respond status (bearer_challenge challenge)

unfoldable pub userinfo_answer : Result UserInfoError Object → ApiResponse
userinfo_answer (ok claims) = respond 200 (object claims)
userinfo_answer (err invalid_token) =
    bearer_error 401 "Bearer realm=\"sharp-oauth\", error=\"invalid_token\""
userinfo_answer (err insufficient_scope) =
    bearer_error 403 "Bearer realm=\"sharp-oauth\", error=\"insufficient_scope\", scope=\"openid\""
userinfo_answer (err (Userinfo.internal_error e)) = refusal e

abbrev pub userinfo_for : AppState → Time → Option String → M ApiResponse ApiResponse
userinfo_for app now none = pure (bearer_error 401 "Bearer realm=\"sharp-oauth\"")
userinfo_for app now (some access_token) = do
  outcome ← attempt (Userinfo.userinfo app access_token now)
  pure (userinfo_answer outcome)

unfoldable pub userinfo : AppState → Headers → Time → M ApiResponse ApiResponse
userinfo app headers now = userinfo_for app now (bearer_token app.platform headers.authorization)

abbrev cacheable : ApiResponse → String → ApiResponse
cacheable response cache_control = record response { cache_control = some cache_control }

abbrev discovery_answer : Result AppError Object → ApiResponse
discovery_answer (ok document) = cacheable (respond 200 (object document)) "public, max-age=3600"
discovery_answer (err e) = refusal e

unfoldable pub discovery : AppState → M ApiResponse ApiResponse
discovery app = do outcome ← attempt (Discovery.document app); pure (discovery_answer outcome)

unfoldable pub jwks : AppState → ApiResponse
jwks app = cacheable (respond 200 (key_set (Keys.jwks app.signing_keys))) "public, max-age=300"
