-- ===== src/OAuth/Token/Rotation.antt =====
-- `grant_type=refresh_token`.
pub mod Success
pub mod Failure
pub mod Families
use sharp_oauth.Prelude.{
  Bool, true, false, not, String, Option, none, some, Result, ok, err, ok_or, map_err,
  if◌then◌else◌,
}
use sharp_oauth.Error.{AppError, invalid_request, invalid_grant, invalid_scope, database}
use sharp_oauth.Secret.{hash_token}
use sharp_oauth.Scope.{ScopeSet, parse, is_subset_of}
use sharp_oauth.Storage.{Time, OAuthClient, RefreshToken}
use sharp_oauth.Storage.Conn.{M, pure, throw, lift, on_tx, begin, commit, ◌>>=◌, ◌>>◌}
use sharp_oauth.Storage.RefreshTokens.{find_by_hash_for_update, mark_rotated, revoke_family}
use sharp_oauth.State.{AppState}
use sharp_oauth.Tokens.Refresh.{
  Unusable, wrong_client, revoked, already_rotated, expired, NewRefreshToken, check_usable, issue,
}
use sharp_oauth.OAuth.Params.{Params, get}
use sharp_oauth.OAuth.Token.Response.{TokenResponse, TokenDraw, signed_tokens, stored_scope}

-- `.map(ScopeSet::parse).transpose()`.
abbrev pub requested : Option String → Result AppError (Option ScopeSet)
requested none = ok none
requested (some raw) = elim (parse raw) [
  | ok scope ↦ ok (some scope)
  | err _ ↦ err (invalid_scope "scope is malformed")
]

-- Fewer scopes than granted, never more.
unfoldable pub narrow : ScopeSet → Option ScopeSet → Result AppError ScopeSet
narrow granted none = ok granted
narrow granted (some wanted) =
    if not (is_subset_of wanted granted)
    then err (invalid_scope "requested scope exceeds the original grant")
    else ok wanted

-- The successor of a token: its family, its code and its whole scope.
abbrev pub successor : RefreshToken → OAuthClient → NewRefreshToken
successor row client = record {
  family_id = row.family_id;
  authorization_code_id = row.authorization_code_id;
  client_id = client.id;
  user_id = row.user_id;
  scope = row.scope;
  auth_time = row.auth_time;
}

unfoldable pub rotate :
    AppState → OAuthClient → RefreshToken → Option ScopeSet → TokenDraw → M AppError TokenResponse
rotate app client row wanted draw = do
  granted ← lift (stored_scope row.scope)
  scope ← lift (narrow granted wanted)
  signed ← lift (signed_tokens app client row.user_id scope row.auth_time none draw.now draw.jti)
  (new_raw, new_row) ←
      issue database app.platform (successor row client) draw.token_bytes draw.token_id draw.now
  on_tx database (mark_rotated row.id new_row.id)
  commit database
  pure (record signed { refresh_token = some new_raw })

-- The match on `check_usable`: a replayed token takes its family down with it.
unfoldable pub answer :
    AppState
    → OAuthClient
    → RefreshToken
    → Option ScopeSet
    → TokenDraw
    → Result Unusable (Unit {0})
    → M AppError TokenResponse
answer app client row wanted draw (ok _) = rotate app client row wanted draw
answer app client row wanted draw (err already_rotated) = do
  on_tx database (revoke_family row.family_id draw.now)
  commit database
  throw (invalid_grant "refresh token has already been used")
answer app client row wanted draw (err wrong_client) =
    throw (invalid_grant "refresh token is invalid")
answer app client row wanted draw (err revoked) =
    throw (invalid_grant "refresh token has been revoked")
answer app client row wanted draw (err expired) = throw (invalid_grant "refresh token has expired")

unfoldable pub exchange_refresh_token :
    AppState → OAuthClient → Params → TokenDraw → M AppError TokenResponse
exchange_refresh_token app client params draw = do
  raw ← lift (ok_or (invalid_request "refresh_token is required") (get params "refresh_token"))
  wanted ← lift (requested (get params "scope"))
  begin database
  found ← on_tx database (find_by_hash_for_update (hash_token app.platform raw))
  row ← lift (ok_or (invalid_grant "refresh token is invalid") found)
  answer app client row wanted draw (check_usable row client.id draw.now)
