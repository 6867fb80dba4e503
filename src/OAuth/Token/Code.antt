-- ===== src/OAuth/Token/Code.antt =====
-- `grant_type=authorization_code`.
pub mod OneTime
pub mod Issued
pub mod Success
pub mod Failure
pub mod Replay
pub mod Completes
use sharp_oauth.Prelude.{
  Bool, true, false, not, ◌||◌, String, Option, none, some, Result, ok, err, ok_or, ◌==◌, eqb, leb,
  if◌then◌else◌,
}
use sharp_oauth.Error.{AppError, invalid_request, invalid_grant, database}
use sharp_oauth.Platform.{Platform}
use sharp_oauth.Secret.{hash_token}
use sharp_oauth.Scope.{ScopeSet, offline_access, contains}
use sharp_oauth.Storage.{Time, OAuthClient, AuthorizationCode}
use sharp_oauth.Storage.Conn.{M, pure, throw, lift, on_tx, begin, commit, ◌>>=◌, ◌>>◌}
use sharp_oauth.Storage.Codes.{claim, find_by_hash}
use sharp_oauth.Storage.RefreshTokens.{revoke_by_authorization_code}
use sharp_oauth.State.{AppState}
use sharp_oauth.Tokens.Refresh.{NewRefreshToken, issue}
use sharp_oauth.OAuth.Params.{Params, get}
use sharp_oauth.OAuth.Pkce.{s256, verify_s256}
use sharp_oauth.OAuth.Token.Response.{TokenResponse, TokenDraw, signed_tokens, stored_scope}

unfoldable pub check_code_bindings :
    Platform → AuthorizationCode → OAuthClient → String → String → Time → Result AppError (Unit {0})
check_code_bindings p row client redirect_uri code_verifier now =
    if not (eqb row.client_id client.id)
    then err (invalid_grant "authorization code was issued to another client")
    else if leb row.expires_at now
    then err (invalid_grant "authorization code has expired")
    else if not (row.redirect_uri == redirect_uri)
    then err (invalid_grant "redirect_uri does not match the authorization request")
    else if not (row.code_challenge_method == s256)
        || not (verify_s256 p code_verifier row.code_challenge)
    then err (invalid_grant "code_verifier does not match code_challenge")
    else ok tt

-- A code that no update matched: unknown, or used before.
unfoldable pub refuse_replay : Time → Option AuthorizationCode → M AppError TokenResponse
refuse_replay now none = throw (invalid_grant "authorization code is invalid")
refuse_replay now (some used) = do
  on_tx database (revoke_by_authorization_code used.id now)
  commit database
  throw (invalid_grant "authorization code has already been used")

abbrev pub family_of_code : AuthorizationCode → OAuthClient → TokenDraw → NewRefreshToken
family_of_code row client draw = record {
  family_id = draw.family_id;
  authorization_code_id = some row.id;
  client_id = client.id;
  user_id = row.user_id;
  scope = row.scope;
  auth_time = row.auth_time;
}

-- A refresh token is issued with `offline_access` only.
unfoldable pub add_refresh_token :
    AppState
    → OAuthClient
    → AuthorizationCode
    → ScopeSet
    → TokenDraw
    → TokenResponse
    → M AppError TokenResponse
add_refresh_token app client row scope draw response =
    if contains scope offline_access
    then (do
      (raw, _) ←
          issue database app.platform (family_of_code row client draw) draw.token_bytes
            draw.token_id draw.now
      pure (record response { refresh_token = some raw }))
    else pure response

-- Step 3: the JWTs are signed before the commit.
unfoldable pub issue_tokens :
    AppState → OAuthClient → AuthorizationCode → TokenDraw → M AppError TokenResponse
issue_tokens app client row draw = do
  scope ← lift (stored_scope row.scope)
  signed ←
      lift (signed_tokens app client row.user_id scope row.auth_time row.nonce draw.now draw.jti)
  response ← add_refresh_token app client row scope draw signed
  commit database
  pure response

-- Step 2: on a failed check the claim is committed all the same.
abbrev pub settle : Result AppError (Unit {0}) → M AppError TokenResponse → M AppError TokenResponse
settle (ok _) next = next
settle (err e) next = do commit database; throw e

unfoldable pub redeem :
    AppState
    → OAuthClient
    → String
    → String
    → String
    → TokenDraw
    → Option AuthorizationCode
    → M AppError TokenResponse
redeem app client code_hash redirect_uri code_verifier draw none = do
  found ← on_tx database (find_by_hash code_hash)
  refuse_replay draw.now found
redeem app client code_hash redirect_uri code_verifier draw (some row) =
    settle (check_code_bindings app.platform row client redirect_uri code_verifier draw.now)
      (issue_tokens app client row draw)

unfoldable pub exchange_authorization_code :
    AppState → OAuthClient → Params → TokenDraw → M AppError TokenResponse
exchange_authorization_code app client params draw = do
  code ← lift (ok_or (invalid_request "code is required") (get params "code"))
  redirect_uri ←
      lift (ok_or (invalid_request "redirect_uri is required") (get params "redirect_uri"))
  code_verifier ←
      lift (ok_or (invalid_request "code_verifier is required (PKCE)") (get params "code_verifier"))
  let code_hash = hash_token app.platform code
  begin database
  claimed ← on_tx database (claim code_hash draw.now)
  redeem app client code_hash redirect_uri code_verifier draw claimed
