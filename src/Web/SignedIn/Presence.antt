-- ===== src/Web/SignedIn/Presence.antt =====
-- Whom the extractors let through.
use sharp_oauth.Prelude.{◌≡◌, refl, ap, ◌∙◌, String, Option, none, some, ok, arith}
use sharp_oauth.Storage.{Db, Time, User, Session}
use sharp_oauth.Storage.Sessions.{find_active_by_hash}
use sharp_oauth.Storage.Users.{find_by_id}
use sharp_oauth.Storage.Conn.{Conn, pure, throw}
use sharp_oauth.Storage.Conn.Steps.{>>=-ok, convert-ok}
use sharp_oauth.Storage.Conn.Rollback.{
  KeepsDb, KeepsDb-pure, KeepsDb-throw, KeepsDb-on_pool, KeepsDb-bind, KeepsDb-convert,
}
use sharp_oauth.State.{AppState}
use sharp_oauth.Platform.{Platform}
use sharp_oauth.Authentication.Browser.{find_active, resolve}
use sharp_oauth.Authentication.Browser.Lifetime.{IsSignedIn, find_active-IsSignedIn}
use sharp_oauth.Web.Http.{Headers, Response, internal_error}
use sharp_oauth.Web.Cookies.{get}
use sharp_oauth.Web.SignedIn.{
  session_cookie, session_of, current_session, require_user, signed_in_user,
}

resolve-KeepsDb : (found : Option Session) → KeepsDb (resolve found)
unfolding resolve find_by_id
resolve-KeepsDb none = KeepsDb-pure _
resolve-KeepsDb (some session) =
    KeepsDb-bind _ _ (KeepsDb-on_pool _ _ (λ d. refl)) λ _. KeepsDb-pure _

session_of-KeepsDb :
    (app : AppState) (now : Time) (token : Option String) → KeepsDb (session_of app now token)
unfolding find_active find_active_by_hash
session_of-KeepsDb app now none = KeepsDb-pure _
session_of-KeepsDb app now (some token) =
    KeepsDb-convert _ _
      (KeepsDb-bind _ _ (KeepsDb-on_pool _ _ (λ d. refl)) λ found. resolve-KeepsDb found)

pub current_session-KeepsDb :
    (app : AppState) (headers : Headers) (now : Time) → KeepsDb (current_session app headers now)
unfolding current_session
current_session-KeepsDb app headers now = session_of-KeepsDb app now _

require_user-KeepsDb :
    (p : Platform) (path : Option String) (found : Option (Session × User))
    → KeepsDb (require_user p path found)
require_user-KeepsDb p path none = KeepsDb-throw _
require_user-KeepsDb p path (some (session, user)) = KeepsDb-pure _

pub signed_in_user-KeepsDb :
    (app : AppState) (headers : Headers) (path : Option String) (now : Time)
    → KeepsDb (signed_in_user app headers path now)
unfolding signed_in_user
signed_in_user-KeepsDb app headers path now =
    KeepsDb-bind _ _ (current_session-KeepsDb app headers now)
      λ found. require_user-KeepsDb app.platform path found

-- The browser has shown the token of a session of this user that is good now.
pub record IsPresent (app : AppState) (headers : Headers) (now : Time) (d : Db) (user : User)
    : Type 0 where
  pub token : String
  pub session : Session
  pub cookie : get app.platform headers session_cookie ≡ some token
  pub signed_in : IsSignedIn app.platform d token now session user

require_user-ok :
    (p : Platform) (path : Option String) (found : Option (Session × User)) (c c' : Conn)
    (user : User)
    → require_user p path found c ≡ (ok user, c')
    → (session : Session) × (found ≡ some (session, user))
unfolding pure throw
require_user-ok p path none c c' user h = ground arith
require_user-ok p path (some (session, known)) c c' user h =
    let same : known ≡ user = ground arith in (session, ap (λ (u : User). some (session, u)) same)

session_of-ok :
    (app : AppState) (now : Time) (token : Option String) (c c' : Conn) (session : Session)
    (user : User)
    → session_of app now token c ≡ (ok (some (session, user)), c')
    → (raw : String) × (token ≡ some raw) × IsSignedIn app.platform c.db raw now session user
unfolding pure
session_of-ok app now none c c' session user h = ground arith
session_of-ok app now (some raw) c c' session user h = (
  raw,
  refl,
  find_active-IsSignedIn app.platform raw now c c' session user
      (convert-ok {F = Response} internal_error (find_active app.platform raw now) c h),
)

-- A handler that asks for a signed-in user gets one only from a browser that shows such a session.
pub signed_in_user-IsPresent :
    (app : AppState) (headers : Headers) (path : Option String) (now : Time) (c c' : Conn)
    (user : User)
    → signed_in_user app headers path now c ≡ (ok user, c')
    → IsPresent app headers now c.db user
unfolding signed_in_user current_session
signed_in_user-IsPresent app headers path now c c' user h =
    let (found, c₁, looked, rest) = >>=-ok (current_session app headers now) _ c h in
    let (session, is_found) = require_user-ok app.platform path found c₁ c' user rest in
    let (token, cookie, signed_in) =
      session_of-ok app now (get app.platform headers session_cookie) c c₁ session user
        (looked ∙ ap (λ (o : Option (Session × User)). (ok o, c₁)) is_found) in
    record { token = token; session = session; cookie = cookie; signed_in = signed_in }
