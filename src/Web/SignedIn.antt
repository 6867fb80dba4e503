-- ===== src/Web/SignedIn.antt =====
-- src/middlewares/auth.rs: the extractors that run before a handler.
pub mod Presence
use sharp_oauth.Prelude.{String, Option, none, some}
use sharp_oauth.Storage.{Time, User, Session}
use sharp_oauth.Storage.Conn.{M, pure, throw, convert, ◌>>=◌}
use sharp_oauth.State.{AppState}
use sharp_oauth.Platform.{Platform}
use sharp_oauth.Authentication.Browser.{find_active}
use sharp_oauth.Web.Http.{Headers, Response, redirect, internal_error, sign_in_location}
use sharp_oauth.Web.Cookies.{get}

abbrev pub session_cookie : String
session_cookie = "sharp_session"

-- An extractor's rejection ends the request, as an early return of the handler does.
abbrev pub session_of : AppState → Time → Option String → M Response (Option (Session × User))
session_of app now none = pure none
session_of app now (some token) = convert internal_error (find_active app.platform token now)

unfoldable pub current_session : AppState → Headers → Time → M Response (Option (Session × User))
current_session app headers now = session_of app now (get app.platform headers session_cookie)

-- The path and query of a GET, or nothing for another method.
abbrev return_to : Option String → String
return_to none = "/"
return_to (some path) = path

abbrev pub require_user : Platform → Option String → Option (Session × User) → M Response User
require_user p path none = throw (redirect (sign_in_location p (return_to path)))
require_user p path (some (_, user)) = pure user

unfoldable pub signed_in_user : AppState → Headers → Option String → Time → M Response User
signed_in_user app headers path now = do
  session ← current_session app headers now
  require_user app.platform path session
