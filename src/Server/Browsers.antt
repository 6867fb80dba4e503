-- ===== src/Server/Browsers.antt =====
-- The pages keep what every statement keeps.
use sharp_oauth.Prelude.{String, Option, none, some, Result, ok, err}
use sharp_oauth.Storage.{Db, Uuid, Time, User, Session, AuthorizationCode, RefreshToken}
use sharp_oauth.Storage.Sessions.{find_active_by_hash}
use sharp_oauth.Storage.Users.{find_by_id, find_by_email}
use sharp_oauth.Storage.Conn.{M}
use sharp_oauth.Storage.Conn.Preserve.{
  Preserves, Preserves-pure, Preserves-throw, Preserves-lift, Preserves-on_pool, Preserves-convert,
  Preserves-attempt, Preserves-bind, Preserves-if,
}
use sharp_oauth.State.{AppState}
use sharp_oauth.Platform.{Bytes}
use sharp_oauth.Authentication.Account
use sharp_oauth.Authentication.Account.{SignUpError}
use sharp_oauth.Authentication.Browser
use sharp_oauth.Web.Http.{Headers, Response}
use sharp_oauth.Web.SignedIn.{session_of, current_session, require_user, signed_in_user}
use sharp_oauth.Web.Accounts
use sharp_oauth.Web.Accounts.{PageDraw, SignInForm, SignUpForm, guarded}
use sharp_oauth.Server.Closed.{Closed, MayEnter}

module _ {I : Db → Type 0} {MayStore : AuthorizationCode → Type 0}
    {MayIssue : RefreshToken → Type 0} {MayOpen : Session → Type 0}
    (closed : Closed I MayStore MayIssue MayOpen) (app : AppState) where
  resolve-Preserves : (found : Option Session) → Preserves I (Browser.resolve found)
  unfolding Browser.resolve find_by_id
  resolve-Preserves none = Preserves-pure _
  resolve-Preserves (some session) =
      Preserves-bind _ _ (Preserves-on_pool _ _ (λ d h. h)) λ _. Preserves-pure _

  find_active-Preserves :
      (token : String) (now : Time) → Preserves I (Browser.find_active app.platform token now)
  unfolding Browser.find_active find_active_by_hash
  find_active-Preserves token now =
      Preserves-bind _ _ (Preserves-on_pool _ _ (λ d h. h)) λ found. resolve-Preserves found

  session_of-Preserves :
      (now : Time) (token : Option String) → Preserves I (session_of app now token)
  session_of-Preserves now none = Preserves-pure _
  session_of-Preserves now (some token) = Preserves-convert _ _ (find_active-Preserves token now)

  pub current_session-Preserves :
      (headers : Headers) (now : Time) → Preserves I (current_session app headers now)
  unfolding current_session
  current_session-Preserves headers now = session_of-Preserves now _

  require_user-Preserves :
      (path : Option String) (found : Option (Session × User))
      → Preserves I (require_user app.platform path found)
  require_user-Preserves path none = Preserves-throw _
  require_user-Preserves path (some (session, user)) = Preserves-pure _

  pub signed_in_user-Preserves :
      (headers : Headers) (path : Option String) (now : Time)
      → Preserves I (signed_in_user app headers path now)
  unfolding signed_in_user
  signed_in_user-Preserves headers path now =
      Preserves-bind _ _ (current_session-Preserves headers now)
        λ found. require_user-Preserves path found

  pub guarded-Preserves :
      (headers : Headers) (submitted : Option String) (next : M Response Response)
      → Preserves I next
      → Preserves I (guarded app headers submitted next)
  unfolding guarded
  guarded-Preserves headers submitted next p = Preserves-if _ _ _ p (Preserves-throw _)

  pub home-Preserves :
      (headers : Headers) (draw : PageDraw) → Preserves I (Accounts.home app headers draw)
  unfolding Accounts.home
  home-Preserves headers draw =
      Preserves-bind _ _ (current_session-Preserves headers draw.now) λ _. Preserves-pure _

  retire-Preserves : (old : Option String) (now : Time) → Preserves I (Accounts.retire app old now)
  unfolding Accounts.retire Browser.revoke
  retire-Preserves none now = Preserves-pure _
  retire-Preserves (some old) now = Preserves-convert _ _ (
      Preserves-bind _ _ (Preserves-on_pool _ _ (closed.session_revoke _ now))
        λ _. Preserves-pure _)

  start_session-Preserves :
      (headers : Headers) (user : User) (return_to : String) (draw : PageDraw)
      → MayEnter MayOpen app draw
      → Preserves I (Accounts.start_session app headers user return_to draw)
  unfolding Accounts.start_session Browser.create
  start_session-Preserves headers user return_to draw may =
      Preserves-bind _ _ (retire-Preserves _ draw.now) λ _.
        Preserves-bind _ _
          (Preserves-convert _ _ (
            Preserves-bind _ _ (Preserves-on_pool _ _ (closed.session_insert _ (may user)))
              λ _. Preserves-pure _))
          λ _. Preserves-pure _

  find_user-Preserves : (address : Option String) → Preserves I (Account.find_user address)
  unfolding Account.find_user find_by_email
  find_user-Preserves none = Preserves-pure _
  find_user-Preserves (some email) = Preserves-on_pool _ _ (λ d h. h)

  signed_in-Preserves :
      (headers : Headers) (form : SignInForm) (return_to : String) (draw : PageDraw)
      (found : Option User)
      → MayEnter MayOpen app draw
      → Preserves I (Accounts.signed_in app headers form return_to draw found)
  unfolding Accounts.signed_in
  signed_in-Preserves headers form return_to draw none may = Preserves-pure _
  signed_in-Preserves headers form return_to draw (some user) may =
      start_session-Preserves headers user return_to draw may

  pub sign_in-Preserves :
      (dummy : String) (headers : Headers) (form : SignInForm) (draw : PageDraw)
      → MayEnter MayOpen app draw
      → Preserves I (Accounts.sign_in app dummy headers form draw)
  unfolding Accounts.sign_in Account.authenticate
  sign_in-Preserves dummy headers form draw may = guarded-Preserves headers form.csrf_token _ (
      Preserves-bind _ _
        (Preserves-convert _ _ (
          Preserves-bind _ _ (find_user-Preserves _)
            λ _. Preserves-bind _ _ (Preserves-lift _) λ _. Preserves-pure _))
        λ found. signed_in-Preserves headers form _ draw found may)

  sign_up_failure-Preserves :
      (headers : Headers) (form : SignUpForm) (return_to : String) (draw : PageDraw)
      (e : SignUpError)
      → Preserves I (Accounts.sign_up_failure app headers form return_to draw e)
  sign_up_failure-Preserves headers form return_to draw Account.invalid_email = Preserves-pure _
  sign_up_failure-Preserves headers form return_to draw Account.invalid_password = Preserves-pure _
  sign_up_failure-Preserves headers form return_to draw Account.invalid_display_name =
      Preserves-pure _
  sign_up_failure-Preserves headers form return_to draw Account.email_taken = Preserves-pure _
  sign_up_failure-Preserves headers form return_to draw (Account.internal_error e) =
      Preserves-throw _

  signed_up-Preserves :
      (headers : Headers) (form : SignUpForm) (return_to : String) (draw : PageDraw)
      (outcome : Result SignUpError User)
      → MayEnter MayOpen app draw
      → Preserves I (Accounts.signed_up app headers form return_to draw outcome)
  unfolding Accounts.signed_up
  signed_up-Preserves headers form return_to draw (ok user) may =
      start_session-Preserves headers user return_to draw may
  signed_up-Preserves headers form return_to draw (err e) may =
      sign_up_failure-Preserves headers form return_to draw e

  account-Preserves :
      (account : Account.NewAccount) (salt : Bytes) (id : Uuid) (now : Time)
      → Preserves I (Account.sign_up app.platform account salt id now)
  unfolding Account.sign_up
  account-Preserves account salt id now = Preserves-bind _ _ (Preserves-lift _) λ _.
      Preserves-bind _ _ (Preserves-lift _) λ _. Preserves-bind _ _ (Preserves-lift _) λ _.
        Preserves-bind _ _ (Preserves-lift _) λ _.
          Preserves-bind _ _ (Preserves-on_pool _ _ (closed.user_insert _)) λ _. Preserves-pure _

  pub sign_up-Preserves :
      (headers : Headers) (form : SignUpForm) (draw : PageDraw)
      → MayEnter MayOpen app draw
      → Preserves I (Accounts.sign_up app headers form draw)
  unfolding Accounts.sign_up
  sign_up-Preserves headers form draw may = guarded-Preserves headers form.csrf_token _ (
      Preserves-bind _ _ (Preserves-attempt _ (account-Preserves _ draw.salt draw.user_id _))
        λ outcome. signed_up-Preserves headers form _ draw outcome may)

  pub logout-Preserves :
      (headers : Headers) (csrf_token : Option String) (draw : PageDraw)
      → Preserves I (Accounts.logout app headers csrf_token draw)
  unfolding Accounts.logout
  logout-Preserves headers csrf_token draw =
      guarded-Preserves headers csrf_token _
        (Preserves-bind _ _ (retire-Preserves _ draw.now) λ _. Preserves-pure _)
