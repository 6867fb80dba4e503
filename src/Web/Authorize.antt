-- ===== src/Web/Authorize.antt =====
-- src/oauth/controllers/authorize.rs: the authorization endpoint and the consent form.
use sharp_oauth.Prelude.{Bool, String, Option, none, some, Result, ok, err, ◌==◌, is_some_and}
use sharp_oauth.Error.{AppError}
use sharp_oauth.Platform.{Bytes}
use sharp_oauth.State.{AppState}
use sharp_oauth.Storage.{Time, User, Session}
use sharp_oauth.Storage.Conn.{M, pure, throw, lift, convert, attempt, ◌>>=◌}
use sharp_oauth.OAuth.Params.{Pairs, Params, DuplicateParameter, from_pairs, get}
use sharp_oauth.OAuth.Authorization.Request.{AuthorizationRequest, from_params, to_pairs, to_path}
use sharp_oauth.OAuth.Authorization.Validation
use sharp_oauth.OAuth.Authorization.Validation.{AuthorizationError, unsafe_request}
use sharp_oauth.OAuth.Authorization.Decision.{
  NextStep, sign_in, ask_consent, redirect_to_client, AuthorizationDraw, to_url, decide,
  complete_consent,
}
use sharp_oauth.Web.Http.{
  Headers, Response, redirect, internal_error, error_page, consent_page, sign_in_location,
}
use sharp_oauth.Web.Csrf.{csrf_field}
use sharp_oauth.Web.SignedIn.{current_session}
use sharp_oauth.Web.Accounts.{with_issued, guarded}

-- What a request draws: the clock of the session lookup, a CSRF token, and the service's draws.
pub record BrowserDraw : Type 0 where
  pub seen_at : Time
  pub csrf_bytes : Bytes
  pub authorization : AuthorizationDraw

unfoldable pub repeated_parameter_page : Response
repeated_parameter_page =
    error_page 400 "This sign-in link is not valid"
      "A request parameter was included more than once."

abbrev pub moved : Result AppError String → M Response Response
moved (ok url) = pure (redirect url)
moved (err e) = throw (internal_error e)

unfoldable pub authorization_error : AppState → AuthorizationError → M Response Response
authorization_error app (unsafe_request message) =
    pure (error_page 400 "This sign-in link is not valid" message)
authorization_error app (Validation.redirect error) =
    moved (to_url app.platform error app.config.issuer)
authorization_error app (Validation.internal_error e) = throw (internal_error e)

-- The match on the outcome of `decide`.
unfoldable pub next_page :
    AppState
    → Headers
    → AuthorizationRequest
    → BrowserDraw
    → Result AuthorizationError NextStep
    → M Response Response
next_page app headers request draw (ok (sign_in return_to)) =
    pure (redirect (sign_in_location app.platform return_to))
next_page app headers request draw (ok (ask_consent validated user scopes)) = pure (
    with_issued app headers draw.csrf_bytes
      (λ csrf. consent_page csrf validated.client.name user scopes (to_pairs request)))
next_page app headers request draw (ok (redirect_to_client url)) = pure (redirect url)
next_page app headers request draw (err e) = authorization_error app e

-- `let Ok(params) = Params::from_pairs(pairs) else { … }`.
abbrev pub read_pairs : Pairs → M Response Params
read_pairs pairs =
    convert (λ (_ : DuplicateParameter). repeated_parameter_page) (lift (from_pairs pairs))

-- The handler of both methods, GET with the query and POST with the form.
unfoldable pub authorize : AppState → Headers → Pairs → BrowserDraw → M Response Response
authorize app headers pairs draw = do
  session ← current_session app headers draw.seen_at
  params ← read_pairs pairs
  let request = from_params params
  outcome ← attempt (decide app request session draw.authorization)
  next_page app headers request draw outcome

abbrev pub answered : AppState → Result AuthorizationError String → M Response Response
answered app (ok url) = pure (redirect url)
answered app (err e) = authorization_error app e

-- The rest of `consent`, by whether somebody is still signed in.
unfoldable pub consent_signed_in :
    AppState
    → AuthorizationRequest
    → Bool
    → BrowserDraw
    → Option (Session × User)
    → M Response Response
consent_signed_in app request approved draw none =
    throw (redirect (sign_in_location app.platform (to_path app.platform request)))
consent_signed_in app request approved draw (some (session, user)) = do
  outcome ← attempt (complete_consent app request approved session user draw.authorization)
  answered app outcome

unfoldable pub consent : AppState → Headers → Pairs → BrowserDraw → M Response Response
consent app headers pairs draw = do
  session ← current_session app headers draw.seen_at
  params ← read_pairs pairs
  guarded app headers (get params csrf_field) (
      consent_signed_in app (from_params params)
        (is_some_and (get params "decision") (λ decision. decision == "approve")) draw session)
