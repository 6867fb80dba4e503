-- ===== src/Server/Grants.antt =====
-- The authorization endpoint and the consent form keep what every statement keeps.
use sharp_oauth.Prelude.{Bool, true, false, String, Option, none, some, Result, ok, err}
use sharp_oauth.Error.{AppError}
use sharp_oauth.Storage.{Db, Uuid, Time, User, Session, AuthorizationCode, RefreshToken}
use sharp_oauth.Storage.Clients.{find_by_client_id}
use sharp_oauth.Storage.Consents.{find_active}
use sharp_oauth.Storage.Scopes.{find_by_names}
use sharp_oauth.Storage.Conn.Preserve.{
  Preserves, Preserves-pure, Preserves-throw, Preserves-lift, Preserves-on_pool, Preserves-convert,
  Preserves-attempt, Preserves-bind, Preserves-if,
}
use sharp_oauth.State.{AppState}
use sharp_oauth.Scope.{ScopeSet}
use sharp_oauth.OAuth.Params.{Pairs}
use sharp_oauth.OAuth.Consent.{granted_scopes, grant}
use sharp_oauth.OAuth.Authorization.Request.{AuthorizationRequest}
use sharp_oauth.OAuth.Authorization.Validation
use sharp_oauth.OAuth.Authorization.Validation.{
  ValidatedRequest, AuthorizationError, unsafe_request, validate,
}
use sharp_oauth.OAuth.Authorization.Decision.{
  NextStep, sign_in, ask_consent, redirect_to_client, AuthorizationDraw, issue_code, decide_consent,
  decide_signed_in, decide, answer_consent, complete_consent,
}
use sharp_oauth.Web.Http.{Headers}
use sharp_oauth.Web.Authorize
use sharp_oauth.Web.Authorize.{BrowserDraw}
use sharp_oauth.Server.Closed.{Closed, MayGrant}
use sharp_oauth.Server.Browsers.{current_session-Preserves, guarded-Preserves}

module _ {I : Db → Type 0} {MayStore : AuthorizationCode → Type 0}
    {MayIssue : RefreshToken → Type 0} {MayOpen : Session → Type 0}
    (closed : Closed I MayStore MayIssue MayOpen) (app : AppState) where
  validate-Preserves : (request : AuthorizationRequest) → Preserves I (validate request)
  unfolding validate find_by_client_id
  validate-Preserves request = Preserves-bind _ _ (Preserves-lift _) λ _.
      Preserves-bind _ _ (Preserves-on_pool _ _ (λ d h. h)) λ _.
        Preserves-bind _ _ (Preserves-lift _) λ _.
          Preserves-bind _ _ (Preserves-lift _)
            λ _. Preserves-bind _ _ (Preserves-lift _) λ _. Preserves-lift _

  granted_scopes-Preserves :
      (user_id client_id : Uuid) → Preserves I (granted_scopes user_id client_id)
  unfolding granted_scopes find_active
  granted_scopes-Preserves user_id client_id =
      Preserves-bind _ _ (Preserves-on_pool _ _ (λ d h. h)) λ _. Preserves-pure _

  grant-Preserves :
      (user_id client_id : Uuid) (scopes : ScopeSet) (id : Uuid) (now : Time)
      → Preserves I (grant user_id client_id scopes id now)
  unfolding grant
  grant-Preserves user_id client_id scopes id now =
      Preserves-bind _ _ (granted_scopes-Preserves user_id client_id) λ _.
        Preserves-bind _ _
          (Preserves-on_pool _ _ (closed.consent_upsert id user_id client_id _ now))
          λ _. Preserves-pure _

  issue_code-Preserves :
      (request : ValidatedRequest) (user : User) (session : Session) (draw : AuthorizationDraw)
      → MayGrant MayStore app draw
      → Preserves I (issue_code app request user session draw)
  unfolding issue_code
  issue_code-Preserves request user session draw may =
      Preserves-bind _ _ (Preserves-on_pool _ _ (closed.code_insert _ (may request user session)))
        λ _. Preserves-lift _

  decide_consent-Preserves :
      (validated : ValidatedRequest) (session : Session) (user : User) (draw : AuthorizationDraw)
      (granted : Option ScopeSet)
      → MayGrant MayStore app draw
      → Preserves I (decide_consent app validated session user draw granted)
  unfolding decide_consent find_by_names
  decide_consent-Preserves validated session user draw granted may =
      Preserves-if _ _ _
        (Preserves-bind _ _
          (Preserves-convert _ _ (issue_code-Preserves validated user session draw may))
          λ _. Preserves-pure _)
        (Preserves-if _ _ _ (Preserves-throw _)
          (Preserves-bind _ _ (Preserves-on_pool _ _ (λ d h. h)) λ _. Preserves-pure _))

  decide_signed_in-Preserves :
      (request : AuthorizationRequest) (validated : ValidatedRequest) (draw : AuthorizationDraw)
      (signed_in : Option (Session × User))
      → MayGrant MayStore app draw
      → Preserves I (decide_signed_in app request validated draw signed_in)
  unfolding decide_signed_in
  decide_signed_in-Preserves request validated draw none may =
      Preserves-if _ _ _ (Preserves-throw _) (Preserves-pure _)
  decide_signed_in-Preserves request validated draw (some (session, user)) may =
      Preserves-bind _ _ (Preserves-convert _ _ (granted_scopes-Preserves _ _))
        λ granted. decide_consent-Preserves validated session user draw granted may

  decide-Preserves :
      (request : AuthorizationRequest) (signed_in : Option (Session × User))
      (draw : AuthorizationDraw)
      → MayGrant MayStore app draw
      → Preserves I (decide app request signed_in draw)
  unfolding decide
  decide-Preserves request signed_in draw may =
      Preserves-bind _ _ (validate-Preserves request)
        λ validated. decide_signed_in-Preserves request validated draw _ may

  answer_consent-Preserves :
      (validated : ValidatedRequest) (session : Session) (user : User) (draw : AuthorizationDraw)
      (approved : Bool)
      → MayGrant MayStore app draw
      → Preserves I (answer_consent app validated session user draw approved)
  unfolding answer_consent
  answer_consent-Preserves validated session user draw false may = Preserves-throw _
  answer_consent-Preserves validated session user draw true may =
      Preserves-bind _ _
        (Preserves-convert _ _ (
          grant-Preserves user.id validated.client.id validated.scope draw.consent_id
            draw.granted_at))
        λ _. Preserves-convert _ _ (issue_code-Preserves validated user session draw may)

  complete_consent-Preserves :
      (request : AuthorizationRequest) (approved : Bool) (session : Session) (user : User)
      (draw : AuthorizationDraw)
      → MayGrant MayStore app draw
      → Preserves I (complete_consent app request approved session user draw)
  unfolding complete_consent
  complete_consent-Preserves request approved session user draw may =
      Preserves-bind _ _ (validate-Preserves request)
        λ validated. answer_consent-Preserves validated session user draw approved may

  moved-Preserves : (url : Result AppError String) → Preserves I (Authorize.moved url)
  moved-Preserves (ok url) = Preserves-pure _
  moved-Preserves (err e) = Preserves-throw _

  authorization_error-Preserves :
      (e : AuthorizationError) → Preserves I (Authorize.authorization_error app e)
  unfolding Authorize.authorization_error
  authorization_error-Preserves (unsafe_request message) = Preserves-pure _
  authorization_error-Preserves (Validation.redirect e) = moved-Preserves _
  authorization_error-Preserves (Validation.internal_error e) = Preserves-throw _

  next_page-Preserves :
      (headers : Headers) (request : AuthorizationRequest) (draw : BrowserDraw)
      (outcome : Result AuthorizationError NextStep)
      → Preserves I (Authorize.next_page app headers request draw outcome)
  unfolding Authorize.next_page
  next_page-Preserves headers request draw (ok (sign_in path)) = Preserves-pure _
  next_page-Preserves headers request draw (ok (ask_consent validated user scopes)) =
      Preserves-pure _
  next_page-Preserves headers request draw (ok (redirect_to_client url)) = Preserves-pure _
  next_page-Preserves headers request draw (err e) = authorization_error-Preserves e

  pub authorize-Preserves :
      (headers : Headers) (pairs : Pairs) (draw : BrowserDraw)
      → MayGrant MayStore app draw.authorization
      → Preserves I (Authorize.authorize app headers pairs draw)
  unfolding Authorize.authorize
  authorize-Preserves headers pairs draw may =
      Preserves-bind _ _ (current_session-Preserves closed app headers draw.seen_at) λ session.
        Preserves-bind _ _ (Preserves-convert _ _ (Preserves-lift _)) λ params.
          Preserves-bind _ _
            (Preserves-attempt _ (decide-Preserves _ session draw.authorization may))
            λ outcome. next_page-Preserves headers _ draw outcome

  answered-Preserves :
      (outcome : Result AuthorizationError String) → Preserves I (Authorize.answered app outcome)
  answered-Preserves (ok url) = Preserves-pure _
  answered-Preserves (err e) = authorization_error-Preserves e

  consent_signed_in-Preserves :
      (request : AuthorizationRequest) (approved : Bool) (draw : BrowserDraw)
      (signed_in : Option (Session × User))
      → MayGrant MayStore app draw.authorization
      → Preserves I (Authorize.consent_signed_in app request approved draw signed_in)
  unfolding Authorize.consent_signed_in
  consent_signed_in-Preserves request approved draw none may = Preserves-throw _
  consent_signed_in-Preserves request approved draw (some (session, user)) may =
      Preserves-bind _ _
        (Preserves-attempt _
          (complete_consent-Preserves request approved session user draw.authorization may))
        λ outcome. answered-Preserves outcome

  pub consent-Preserves :
      (headers : Headers) (pairs : Pairs) (draw : BrowserDraw)
      → MayGrant MayStore app draw.authorization
      → Preserves I (Authorize.consent app headers pairs draw)
  unfolding Authorize.consent
  consent-Preserves headers pairs draw may =
      Preserves-bind _ _ (current_session-Preserves closed app headers draw.seen_at) λ session.
        Preserves-bind _ _ (Preserves-convert _ _ (Preserves-lift _)) λ params.
          guarded-Preserves closed app headers _ _
            (consent_signed_in-Preserves _ _ draw session may)
