-- ===== src/Web/Accounts.antt =====
-- src/authentication/controllers/pages.rs: home, sign-in, sign-up and sign-out. An early return of
-- a handler, an extractor's rejection included, is the failure of its block.
pub mod ReturnTo
pub mod Handover
use text.Mathlib.Text.{starts_with}
use sharp_oauth.Prelude.{
  Bool, true, false, not, ◌&&◌, String, Option, none, some, Result, ok, err, eqb, if◌then◌else◌,
  starts_with_code, any_code, unwrap_or, [], ◌∷◌, join, show,
}
use sharp_oauth.Error.{AppError}
use sharp_oauth.Platform.{Platform, Bytes}
use sharp_oauth.State.{AppState}
use sharp_oauth.Config.{secure_cookies}
use sharp_oauth.Storage.{Uuid, Time, User, Session}
use sharp_oauth.Storage.Conn.{M, pure, throw, convert, attempt, ◌>>=◌, ◌>>◌}
use sharp_oauth.Authentication.Account
use sharp_oauth.Authentication.Account.{
  NewAccount, SignUpError, invalid_email, invalid_password, invalid_display_name, email_taken,
  authenticate, min_password_chars, max_password_bytes, max_display_name_chars,
}
use sharp_oauth.Authentication.Browser.{session_ttl, create, revoke}
use sharp_oauth.Web.Http
use sharp_oauth.Web.Http.{Headers, Response, redirect, append_cookie, internal_error}
use sharp_oauth.Web.Cookies.{get, set, clear}
use sharp_oauth.Web.Csrf.{CsrfToken, issue, verify, with_csrf_cookie, csrf_failure}
use sharp_oauth.Web.SignedIn.{session_cookie, current_session}

pub record SignInForm : Type 0 where
  pub email : String
  pub password : String
  pub return_to : Option String
  pub csrf_token : Option String

pub record SignUpForm : Type 0 where
  pub email : String
  pub password : String
  pub display_name : Option String
  pub return_to : Option String
  pub csrf_token : Option String

-- What a page request draws: the clocks, a CSRF token, a session, and an account with its salt.
pub record PageDraw : Type 0 where
  pub now : Time
  pub created_at : Time
  pub csrf_bytes : Bytes
  pub session_id : Uuid
  pub session_bytes : Bytes
  pub user_id : Uuid
  pub signed_up_at : Time
  pub salt : Bytes

unfoldable pub safe_return_to : Platform → String → String
safe_return_to p candidate =
    if starts_with_code b'/' candidate
      && (not (starts_with candidate "//")
          && (not (any_code (λ c. eqb c 92) candidate) && not (any_code p.is_control candidate)))
    then candidate
    else "/"

abbrev pub safe : Platform → Option String → Option String
safe p none = none
safe p (some path) = some (safe_return_to p path)

-- `csrf::issue` with the issuer's cookie attributes.
abbrev pub issued : AppState → Headers → Bytes → CsrfToken
issued app headers bytes = issue app.platform headers (secure_cookies app.config) bytes

abbrev pub with_issued : AppState → Headers → Bytes → (String → Response) → Response
with_issued app headers bytes page =
    with_csrf_cookie (page (issued app headers bytes).value) (issued app headers bytes)

-- `if !csrf::verify(…) { return csrf_failure() }`.
unfoldable pub guarded :
    AppState → Headers → Option String → M Response Response → M Response Response
guarded app headers submitted next =
    if verify app.platform headers submitted then next else throw csrf_failure

abbrev user_of : Option (Session × User) → Option User
user_of none = none
user_of (some (_, user)) = some user

unfoldable pub home : AppState → Headers → PageDraw → M Response Response
home app headers draw = do
  session ← current_session app headers draw.now
  pure (with_issued app headers draw.csrf_bytes (Http.home_page (user_of session)))

unfoldable pub sign_in_page : AppState → Headers → Option String → PageDraw → M Response Response
sign_in_page app headers return_to draw = pure (
    with_issued app headers draw.csrf_bytes
      (λ csrf. Http.sign_in_page app.platform 200 csrf (safe app.platform return_to) "" none))

unfoldable pub sign_up_page : AppState → Headers → Option String → PageDraw → M Response Response
sign_up_page app headers return_to draw = pure (
    with_issued app headers draw.csrf_bytes
      (λ csrf. Http.sign_up_page app.platform 200 csrf (safe app.platform return_to) "" "" none))

-- The previous session of this browser, if it sent one.
unfoldable pub retire : AppState → Option String → Time → M Response (Unit {0})
retire app none now = pure tt
retire app (some old) now = convert internal_error (revoke app.platform old now)

unfoldable pub start_session : AppState → Headers → User → String → PageDraw → M Response Response
start_session app headers user return_to draw = do
  retire app (get app.platform headers session_cookie) draw.now
  (token, _) ←
      convert internal_error
        (create app.platform user draw.session_bytes draw.session_id draw.created_at)
  pure (
      append_cookie (redirect return_to)
        (set session_cookie token (some session_ttl) (secure_cookies app.config)))

-- The match on the outcome of `user::authenticate`.
unfoldable pub signed_in :
    AppState → Headers → SignInForm → String → PageDraw → Option User → M Response Response
signed_in app headers form return_to draw none = pure (
    with_issued app headers draw.csrf_bytes (λ csrf.
      Http.sign_in_page app.platform 401 csrf (some return_to) form.email
        (some "Invalid email or password.")))
signed_in app headers form return_to draw (some user) =
    start_session app headers user return_to draw

-- `dummy` is the hash that an unknown address is checked against.
unfoldable pub sign_in : AppState → String → Headers → SignInForm → PageDraw → M Response Response
sign_in app dummy headers form draw = guarded app headers form.csrf_token (do
  let return_to = safe_return_to app.platform (unwrap_or "/" form.return_to)
  user ← convert internal_error (authenticate app.platform dummy form.email form.password)
  signed_in app headers form return_to draw user)

-- The `Display` of a sign-up error; an internal one is not shown, its text is left out.
unfoldable pub message : SignUpError → String
message invalid_email = "Please enter a valid email address."
message invalid_password = join "" (
    "Password must be between "
    ∷ show min_password_chars
    ∷ " and "
    ∷ show max_password_bytes
    ∷ " characters."
    ∷ [])
message invalid_display_name =
    join "" ("Display name must be at most " ∷ show max_display_name_chars ∷ " characters." ∷ [])
message email_taken = "An account with this email already exists."
message (Account.internal_error _) = ""

abbrev pub sign_up_failure :
    AppState → Headers → SignUpForm → String → PageDraw → SignUpError → M Response Response
sign_up_failure app headers form return_to draw (Account.internal_error e) =
    throw (internal_error e)
sign_up_failure app headers form return_to draw other = pure (
    with_issued app headers draw.csrf_bytes (λ csrf.
      Http.sign_up_page app.platform 422 csrf (some return_to) form.email
        (unwrap_or "" form.display_name) (some (message other))))

-- The match on the outcome of `user::sign_up`.
unfoldable pub signed_up :
    AppState
    → Headers
    → SignUpForm
    → String
    → PageDraw
    → Result SignUpError User
    → M Response Response
signed_up app headers form return_to draw (ok user) = start_session app headers user return_to draw
signed_up app headers form return_to draw (err e) =
    sign_up_failure app headers form return_to draw e

abbrev pub account_of : SignUpForm → NewAccount
account_of form = record {
  email = form.email;
  password = form.password;
  display_name = form.display_name;
}

unfoldable pub sign_up : AppState → Headers → SignUpForm → PageDraw → M Response Response
sign_up app headers form draw = guarded app headers form.csrf_token (do
  let return_to = safe_return_to app.platform (unwrap_or "/" form.return_to)
  outcome ←
      attempt
        (Account.sign_up app.platform (account_of form) draw.salt draw.user_id draw.signed_up_at)
  signed_up app headers form return_to draw outcome)

unfoldable pub logout : AppState → Headers → Option String → PageDraw → M Response Response
logout app headers csrf_token draw = guarded app headers csrf_token (do
  retire app (get app.platform headers session_cookie) draw.now
  pure (append_cookie (redirect "/") (clear session_cookie (secure_cookies app.config))))
