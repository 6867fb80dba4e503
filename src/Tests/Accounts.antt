-- ===== src/Tests/Accounts.antt =====
-- Runs of sign-up, sign-in and the life of a session.
use sharp_oauth.Prelude.{
  ℕ, Bool, false, ◌≡◌, ◌*◌, refl, String, Option, none, some, List, [], ◌∷◌, ok,
}
use sharp_oauth.Storage.{User, Session, Db, second}
use sharp_oauth.Storage.Conn.{Conn}
use sharp_oauth.Authentication.Account.{NewAccount, new_user, sign_up, authenticate}
use sharp_oauth.Authentication.Account.SignIn.{
  SignedUp, IsKnown, sign_up-SignedUp, authenticate-IsKnown,
}
use sharp_oauth.Authentication.Browser.{find_active, revoke}
use sharp_oauth.Authentication.Browser.Lifetime.{IsSignedIn, find_active-IsSignedIn}
use sharp_oauth.Web.Http.{Headers}
use sharp_oauth.Server
use sharp_oauth.Server.{Request, serve, opening, answered, start, later}
use sharp_oauth.Server.EndedSessions.{signed_out_for_good}
use sharp_oauth.Tests.World.{app, page_draw, platform, user, session, tables, serving, text_a}

abbrev live_session : Session
live_session = record session { session_token_hash = text_a }

abbrev conn : Conn
conn = serving (record (tables [] [] []) { sessions = live_session ∷ [] })

finds :
    find_active platform text_a (20 * second) conn
    ≡ (ok (some (live_session, user)), (find_active platform text_a (20 * second) conn).1)
unfolding sharp_oauth.Authentication.Browser.find_active sharp_oauth.Authentication.Browser.resolve
    sharp_oauth.Storage.Sessions.find_active_by_hash sharp_oauth.Storage.Users.find_by_id
    sharp_oauth.Secret.hash_token sharp_oauth.Storage.Conn.◌>>=◌ sharp_oauth.Prelude.find
finds = refl

find_active-IsSignedIn_example : IsSignedIn platform conn.db text_a (20 * second) live_session user
find_active-IsSignedIn_example =
    find_active-IsSignedIn platform text_a (20 * second) conn
      (find_active platform text_a (20 * second) conn).1 live_session user finds

abbrev signed_out : Conn
signed_out = (revoke platform text_a (20 * second) conn).1

revokes : revoke platform text_a (20 * second) conn ≡ (ok tt, signed_out)
unfolding sharp_oauth.Authentication.Browser.revoke sharp_oauth.Storage.Sessions.revoke_by_hash
    sharp_oauth.Storage.Conn.◌>>=◌
revokes = refl

abbrev no_headers : Headers
no_headers = record { cookies = []; authorization = none }

-- Another browser signs out in between.
abbrev signs_out : Request
signs_out = Server.logout no_headers none page_draw

abbrev working : ℕ → Bool
working n = false

abbrev afterwards : Conn
afterwards = opening (serve app "dummy" signs_out (opening signed_out.db working)).1.db working

nobody :
    find_active platform text_a (30 * second) afterwards
    ≡ (ok none, (find_active platform text_a (30 * second) afterwards).1)
unfolding sharp_oauth.Authentication.Browser.find_active sharp_oauth.Authentication.Browser.resolve
    sharp_oauth.Authentication.Browser.revoke sharp_oauth.Storage.Sessions.find_active_by_hash
    sharp_oauth.Storage.Sessions.revoke_by_hash sharp_oauth.Secret.hash_token
    sharp_oauth.Storage.Conn.◌>>=◌ sharp_oauth.Prelude.find sharp_oauth.Prelude.update_where
    sharp_oauth.Web.Accounts.logout sharp_oauth.Web.Accounts.guarded sharp_oauth.Web.Csrf.verify
    sharp_oauth.Web.Cookies.get sharp_oauth.Server.serve
nobody = refl

abbrev nobody_found : Option (Session × User)
nobody_found = none

signed_out_for_good_example : nobody_found ≡ none
signed_out_for_good_example =
    signed_out_for_good app "dummy" text_a (20 * second) (30 * second) conn signed_out
      (find_active platform text_a (30 * second) afterwards).1 afterwards.db working nobody_found
      revokes (later start (answered signs_out working tt refl)) nobody

abbrev account : NewAccount
account = record { email = "new@b.example"; password = "a long password"; display_name = none }

abbrev created : User
created = new_user "new@b.example" "a long password" none 21 (20 * second)

signs_up :
    sign_up platform account [] 21 (20 * second) conn
    ≡ (ok created, (sign_up platform account [] 21 (20 * second) conn).1)
unfolding sharp_oauth.Storage.Users.insert sharp_oauth.Authentication.Account.sign_up
    sharp_oauth.Authentication.Account.normalize_email sharp_oauth.Storage.Conn.◌>>=◌
    sharp_oauth.Prelude.any sharp_oauth.Prelude.is_empty sharp_oauth.Prelude.any_code
    sharp_oauth.Prelude.split_once sharp_oauth.Prelude.starts_with_code
    sharp_oauth.Prelude.ends_with_code
signs_up = refl

sign_up-SignedUp_example :
    SignedUp platform account conn.db
      (sign_up platform account [] 21 (20 * second) conn).1.db
      created
sign_up-SignedUp_example =
    sign_up-SignedUp platform account [] 21 (20 * second) conn
      (sign_up platform account [] 21 (20 * second) conn).1 created signs_up

signs_in :
    authenticate platform "dummy" "a@b.example" "pw" conn
    ≡ (ok (some user), (authenticate platform "dummy" "a@b.example" "pw" conn).1)
unfolding sharp_oauth.Storage.Users.find_by_email sharp_oauth.Authentication.Account.authenticate
    sharp_oauth.Authentication.Account.find_user sharp_oauth.Authentication.Account.normalize_email
    sharp_oauth.Storage.Conn.◌>>=◌ sharp_oauth.Prelude.find sharp_oauth.Prelude.is_empty
    sharp_oauth.Prelude.any_code sharp_oauth.Prelude.split_once sharp_oauth.Prelude.starts_with_code
    sharp_oauth.Prelude.ends_with_code
signs_in = refl

authenticate-IsKnown_example : IsKnown platform conn.db "a@b.example" "pw" user
authenticate-IsKnown_example =
    authenticate-IsKnown platform "dummy" "a@b.example" "pw" conn
      (authenticate platform "dummy" "a@b.example" "pw" conn).1 user signs_in
