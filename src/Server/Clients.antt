-- ===== src/Server/Clients.antt =====
-- The endpoints that clients call keep what every statement keeps.
use sharp_oauth.Prelude.{◌≡◌, refl, Option, none, some, Result, ok, err, String}
use sharp_oauth.Prelude.Rows.{find-In}
use sharp_oauth.Storage.{Session, Time, Db, OAuthClient, AuthorizationCode, RefreshToken}
use sharp_oauth.Storage.RefreshTokens.{
  find_by_hash, find_by_hash_for_update, revoke_family, revoke_by_authorization_code,
}
use sharp_oauth.Storage.Codes
use sharp_oauth.Storage.Clients.{find_by_client_id}
use sharp_oauth.Storage.Conn.{M}
use sharp_oauth.Storage.Conn.Preserve.{
  Preserves, Preserves-pure, Preserves-throw, Preserves-lift, Preserves-on_pool, Preserves-on_tx,
  Preserves-begin, Preserves-commit, Preserves-attempt, Preserves-bind, Preserves-found,
  Preserves-given, Preserves-if,
}
use sharp_oauth.Error.{AppError}
use sharp_oauth.State.{AppState}
use sharp_oauth.Scope.{ScopeSet}
use sharp_oauth.OAuth.Params.{Params, Pairs}
use sharp_oauth.OAuth.Client.Credentials.{ClientCredentials, authenticate}
use sharp_oauth.OAuth.Token.Response.{
  TokenDraw, TokenResponse, authorization_code, refresh_token, GrantType,
}
use sharp_oauth.OAuth.Token.Code.{
  exchange_authorization_code, redeem, refuse_replay, settle, issue_tokens, add_refresh_token,
}
use sharp_oauth.OAuth.Token.Rotation.{exchange_refresh_token, answer, rotate, successor}
use sharp_oauth.OAuth.Token.Endpoint.{handle, dispatch, handle_revocation, revoke_found}
use sharp_oauth.Tokens.Refresh.{
  Unusable, wrong_client, revoked, already_rotated, expired, new_row, issue, check_usable_iff,
}
use sharp_oauth.Web.Http.{Headers}
use sharp_oauth.Web.Endpoints
use sharp_oauth.Oidc.Userinfo
use sharp_oauth.Oidc.Discovery.{document}
use sharp_oauth.Storage.Users.{find_by_id}
use sharp_oauth.Storage.Scopes.{list_all}
use sharp_oauth.Server.Closed.{Closed, MayStart}

module _ {I : Db → Type 0} {MayStore : AuthorizationCode → Type 0}
    {MayIssue : RefreshToken → Type 0} {MayOpen : Session → Type 0}
    (closed : Closed I MayStore MayIssue MayOpen) (app : AppState) where
  authenticate-Preserves :
      (credentials : ClientCredentials) → Preserves I (authenticate app.platform credentials)
  unfolding authenticate find_by_client_id
  authenticate-Preserves credentials =
      Preserves-bind _ _ (Preserves-on_pool _ _ (λ d h. h)) λ _. Preserves-lift _

  refuse_replay-Preserves :
      (now : Time) (found : Option AuthorizationCode) → Preserves I (refuse_replay now found)
  unfolding refuse_replay revoke_by_authorization_code
  refuse_replay-Preserves now none = Preserves-throw _
  refuse_replay-Preserves now (some used) =
      Preserves-bind _ _ (Preserves-on_tx _ _ (λ d. closed.token_revoke _ now d))
        λ _. Preserves-bind _ _ (Preserves-commit _) λ _. Preserves-throw _

  add_refresh_token-Preserves :
      (client : OAuthClient) (row : AuthorizationCode) (scope : ScopeSet) (draw : TokenDraw)
      (response : TokenResponse)
      → MayStart MayIssue app draw
      → Preserves I (add_refresh_token app client row scope draw response)
  unfolding add_refresh_token issue
  add_refresh_token-Preserves client row scope draw response may =
      Preserves-if _ _ _
        (Preserves-bind _ _
          (Preserves-bind _ _ (Preserves-on_tx _ _ (closed.token_insert _ (may client row)))
            λ _. Preserves-pure _)
          λ _. Preserves-pure _)
        (Preserves-pure _)

  issue_tokens-Preserves :
      (client : OAuthClient) (row : AuthorizationCode) (draw : TokenDraw)
      → MayStart MayIssue app draw
      → Preserves I (issue_tokens app client row draw)
  unfolding issue_tokens
  issue_tokens-Preserves client row draw may = Preserves-bind _ _ (Preserves-lift _) λ scope.
      Preserves-bind _ _ (Preserves-lift _) λ signed.
        Preserves-bind _ _ (add_refresh_token-Preserves client row scope draw signed may)
          λ _. Preserves-bind _ _ (Preserves-commit _) λ _. Preserves-pure _

  settle-Preserves :
      (checked : Result AppError (Unit {0})) (next : M AppError TokenResponse)
      → Preserves I next
      → Preserves I (settle checked next)
  settle-Preserves (ok _) next p = p
  settle-Preserves (err e) next p = Preserves-bind _ _ (Preserves-commit _) λ _. Preserves-throw _

  redeem-Preserves :
      (client : OAuthClient) (hash uri verifier : String) (draw : TokenDraw)
      (claimed : Option AuthorizationCode)
      → MayStart MayIssue app draw
      → Preserves I (redeem app client hash uri verifier draw claimed)
  unfolding redeem Codes.find_by_hash
  redeem-Preserves client hash uri verifier draw none may =
      Preserves-bind _ _ (Preserves-on_tx _ _ (λ d h. h))
        λ found. refuse_replay-Preserves draw.now found
  redeem-Preserves client hash uri verifier draw (some row) may =
      settle-Preserves _ _ (issue_tokens-Preserves client row draw may)

  pub exchange_code-Preserves :
      (client : OAuthClient) (params : Params) (draw : TokenDraw)
      → MayStart MayIssue app draw
      → Preserves I (exchange_authorization_code app client params draw)
  unfolding exchange_authorization_code
  exchange_code-Preserves client params draw may = Preserves-bind _ _ (Preserves-lift _) λ code.
      Preserves-bind _ _ (Preserves-lift _) λ uri. Preserves-bind _ _ (Preserves-lift _) λ verifier.
        Preserves-bind _ _ (Preserves-begin _) λ _.
          Preserves-bind _ _ (Preserves-on_tx _ _ (closed.code_claim _ draw.now))
            λ claimed. redeem-Preserves client _ uri verifier draw claimed may

  rotate-Preserves :
      (client : OAuthClient) (row : RefreshToken) (wanted : Option ScopeSet) (draw : TokenDraw)
      → MayIssue
          (new_row app.platform (successor row client) draw.token_bytes draw.token_id draw.now)
      → Preserves I (rotate app client row wanted draw)
  unfolding rotate issue
  rotate-Preserves client row wanted draw may = Preserves-bind _ _ (Preserves-lift _) λ granted.
      Preserves-bind _ _ (Preserves-lift _) λ scope. Preserves-bind _ _ (Preserves-lift _) λ signed.
        Preserves-bind _ _
          (Preserves-bind _ _ (Preserves-on_tx _ _ (closed.token_insert _ may))
            λ _. Preserves-pure _)
          λ _.
            Preserves-bind _ _ (Preserves-on_tx _ _ (closed.token_rotate _ _))
              λ _. Preserves-bind _ _ (Preserves-commit _) λ _. Preserves-pure _

  answer-Preserves :
      (client : OAuthClient) (row : RefreshToken) (wanted : Option ScopeSet) (draw : TokenDraw)
      (usable : Result Unusable (Unit {0}))
      → (usable ≡ ok tt
          → MayIssue
              (new_row app.platform (successor row client) draw.token_bytes draw.token_id draw.now))
      → Preserves I (answer app client row wanted draw usable)
  unfolding answer revoke_family
  answer-Preserves client row wanted draw (ok tt) may =
      rotate-Preserves client row wanted draw (may refl)
  answer-Preserves client row wanted draw (err already_rotated) may =
      Preserves-bind _ _ (Preserves-on_tx _ _ (closed.token_revoke _ draw.now))
        λ _. Preserves-bind _ _ (Preserves-commit _) λ _. Preserves-throw _
  answer-Preserves client row wanted draw (err wrong_client) may = Preserves-throw _
  answer-Preserves client row wanted draw (err revoked) may = Preserves-throw _
  answer-Preserves client row wanted draw (err expired) may = Preserves-throw _

  pub exchange_refresh-Preserves :
      (client : OAuthClient) (params : Params) (draw : TokenDraw)
      → Preserves I (exchange_refresh_token app client params draw)
  unfolding exchange_refresh_token find_by_hash_for_update new_row
  exchange_refresh-Preserves client params draw = Preserves-bind _ _ (Preserves-lift _) λ raw.
      Preserves-bind _ _ (Preserves-lift _) λ wanted. Preserves-bind _ _ (Preserves-begin _) λ _.
        Preserves-found _ _ _ λ d held. Preserves-given _ _ _ λ row found.
          answer-Preserves client row wanted draw _ λ usable.
            closed.heir d row _ held (find-In _ _ row found)
              ((check_usable_iff row client.id draw.now).0 usable).1 refl

  dispatch-Preserves :
      (kind : GrantType) (client : OAuthClient) (params : Params) (draw : TokenDraw)
      → MayStart MayIssue app draw
      → Preserves I (dispatch app kind client params draw)
  dispatch-Preserves authorization_code client params draw may =
      exchange_code-Preserves client params draw may
  dispatch-Preserves refresh_token client params draw may =
      exchange_refresh-Preserves client params draw

  handle-Preserves :
      (header : Option String) (pairs : Pairs) (draw : TokenDraw)
      → MayStart MayIssue app draw
      → Preserves I (handle app header pairs draw)
  unfolding handle
  handle-Preserves header pairs draw may = Preserves-bind _ _ (Preserves-lift _) λ params.
      Preserves-bind _ _ (Preserves-lift _) λ kind.
        Preserves-bind _ _ (Preserves-lift _) λ credentials.
          Preserves-bind _ _ (authenticate-Preserves credentials)
            λ client. dispatch-Preserves kind client params draw may

  revoke_found-Preserves :
      (client : OAuthClient) (now : Time) (found : Option RefreshToken)
      → Preserves I (revoke_found client now found)
  unfolding revoke_found revoke_family
  revoke_found-Preserves client now none = Preserves-pure _
  revoke_found-Preserves client now (some row) =
      Preserves-if _ _ _ (Preserves-throw _) (
        Preserves-bind _ _ (Preserves-on_pool _ _ (closed.token_revoke _ now))
          λ _. Preserves-pure _)

  handle_revocation-Preserves :
      (header : Option String) (pairs : Pairs) (now : Time)
      → Preserves I (handle_revocation app header pairs now)
  unfolding handle_revocation find_by_hash
  handle_revocation-Preserves header pairs now = Preserves-bind _ _ (Preserves-lift _) λ params.
      Preserves-bind _ _ (Preserves-lift _) λ credentials.
        Preserves-bind _ _ (authenticate-Preserves credentials) λ client.
          Preserves-bind _ _ (Preserves-lift _) λ token.
            Preserves-bind _ _ (Preserves-on_pool _ _ (λ d h. h))
              λ found. revoke_found-Preserves client now found

  pub token-Preserves :
      (headers : Headers) (form : Option Pairs) (draw : TokenDraw)
      → MayStart MayIssue app draw
      → Preserves I (Endpoints.token app headers form draw)
  unfolding Endpoints.token
  token-Preserves headers none draw may =
      Preserves-bind _ _ (Preserves-pure _) λ _. Preserves-pure _
  token-Preserves headers (some pairs) draw may =
      Preserves-bind _ _
        (Preserves-bind _ _
          (Preserves-attempt _ (handle-Preserves headers.authorization pairs draw may))
          λ _. Preserves-pure _)
        λ _. Preserves-pure _

  pub revoke-Preserves :
      (headers : Headers) (form : Option Pairs) (now : Time)
      → Preserves I (Endpoints.revoke app headers form now)
  unfolding Endpoints.revoke
  revoke-Preserves headers none now = Preserves-pure _
  revoke-Preserves headers (some pairs) now =
      Preserves-bind _ _
        (Preserves-attempt _ (handle_revocation-Preserves headers.authorization pairs now))
        λ _. Preserves-pure _

  userinfo_for-Preserves :
      (now : Time) (bearer : Option String) → Preserves I (Endpoints.userinfo_for app now bearer)
  unfolding Userinfo.userinfo find_by_id
  userinfo_for-Preserves now none = Preserves-pure _
  userinfo_for-Preserves now (some access_token) =
      Preserves-bind _ _
        (Preserves-attempt _ (
          Preserves-bind _ _ (Preserves-lift _) λ claims. Preserves-bind _ _ (Preserves-lift _) λ _.
            Preserves-bind _ _ (Preserves-lift _) λ user_id.
              Preserves-bind _ _ (Preserves-on_pool _ _ (λ d h. h))
                λ found. Preserves-bind _ _ (Preserves-lift _) λ user. Preserves-pure _))
        λ _. Preserves-pure _

  pub userinfo-Preserves :
      (headers : Headers) (now : Time) → Preserves I (Endpoints.userinfo app headers now)
  unfolding Endpoints.userinfo
  userinfo-Preserves headers now = userinfo_for-Preserves now _

  pub discovery-Preserves : Preserves I (Endpoints.discovery app)
  unfolding Endpoints.discovery document list_all
  discovery-Preserves =
      Preserves-bind _ _
        (Preserves-attempt _
          (Preserves-bind _ _ (Preserves-on_pool _ _ (λ d h. h)) λ _. Preserves-pure _))
        λ _. Preserves-pure _
