-- ===== src/Web/Accounts/Handover.antt =====
-- A sign-in hands the browser over from its old session to a new one.
use sharp_oauth.Prelude.{
  ◌≡◌, ◌≢◌, refl, sym, ap, ◌∙◌, true, false, String, Option, none, some, List, [], ◌∷◌, ◌++◌,
  Result, ok, err, arith, Bool-cases, inl, inr, any, ◌==◌, eq_iff, unwrap_or,
}
use sharp_oauth.Prelude.Rows.{None, none-append}
use sharp_oauth.Error.{AppError}
use sharp_oauth.Secret.{generate_token, hash_token}
use sharp_oauth.Storage.{Db, Time, User, Session}
use sharp_oauth.Storage.Sessions
use sharp_oauth.Storage.Sessions.{clashes, is_live}
use sharp_oauth.Storage.Conn.{Conn, pure}
use sharp_oauth.Storage.Conn.Steps.{>>=-ok, convert-ok, after_pool}
use sharp_oauth.State.{AppState}
use sharp_oauth.Authentication.Account.SignIn.{IsKnown}
use sharp_oauth.Authentication.Browser
use sharp_oauth.Authentication.Browser.{new_session, find_active}
use sharp_oauth.Authentication.Browser.Lifetime.{revoke-None}
use sharp_oauth.Web.Http.{Headers, Response, Body, see_other, redirect, internal_error}
use sharp_oauth.Web.Cookies.{get}
use sharp_oauth.Web.SignedIn.{session_cookie}
use sharp_oauth.Web.Csrf.{verify}
use sharp_oauth.Web.Accounts.{PageDraw, SignInForm, retire, start_session, safe_return_to}

-- The session that a page request draws.
abbrev pub drawn_session : AppState → User → PageDraw → Session
drawn_session app user draw =
    new_session app.platform user draw.session_bytes draw.session_id draw.created_at

session-insert :
    (session : Session) (d d' : Db)
    → Sessions.insert session d ≡ (ok tt, d')
    → d'.sessions ≡ d.sessions ++ session ∷ []
unfolding Sessions.insert
session-insert session d d' h = elim (Bool-cases (any (clashes session) d.sessions)) [
  | inl clash ↦ absurd (ground arith)
  | inr free ↦ ground arith
]

retire-None :
    (app : AppState) (sent : Option String) (old : String) (now later : Time) (c c' : Conn)
    → sent ≡ some old
    → retire app sent now c ≡ (ok tt, c')
    → None (is_live (hash_token app.platform old) later) c'.db.sessions
unfolding retire
retire-None app none old now later c c' shown h = cc shown
retire-None app (some sent) old now later c c' shown h =
    let same : sent ≡ old = ground arith in
    revoke-None app.platform old now later c c' (
      rw same at
        (convert-ok {F = Response} internal_error (Browser.revoke app.platform sent now) c h))

other_session :
    (hash : String) (session : Session) (later : Time)
    → hash ≢ session.session_token_hash
    → is_live hash later session ≡ false
other_session hash session later other = elim (Bool-cases (session.session_token_hash == hash)) [
  | inl same ↦ absurd (other (sym ((eq_iff session.session_token_hash hash).0 same)))
  | inr differs ↦ rw differs refl
]

-- What a successful start of a session leaves.
pub record Started (app : AppState) (headers : Headers) (user : User) (return_to : String)
    (draw : PageDraw) (after : Db) (response : Response) : Type 0 where
  pub body : response.body ≡ see_other return_to
  pub stored : (kept : List Session) × (after.sessions ≡ kept ++ drawn_session app user draw ∷ [])
  pub retired :
      (old : String) (later : Time)
      → get app.platform headers session_cookie ≡ some old
      → hash_token app.platform old
        ≢ hash_token app.platform (generate_token app.platform draw.session_bytes)
      → None (is_live (hash_token app.platform old) later) after.sessions

pub start_session-Started :
    (app : AppState) (headers : Headers) (user : User) (return_to : String) (draw : PageDraw)
    (c c' : Conn) (response : Response)
    → start_session app headers user return_to draw c ≡ (ok response, c')
    → Started app headers user return_to draw c'.db response
unfolding start_session Browser.create new_session redirect pure
start_session-Started app headers user return_to draw c c' response h =
    let (_, c₁, retires, rest) =
      >>=-ok (retire app (get app.platform headers session_cookie) draw.now) _ c h in
    let ((token, session), c₂, creates, fin) = >>=-ok _ _ c₁ rest in
    let created =
      convert-ok {F = Response} internal_error
        (Browser.create app.platform user draw.session_bytes draw.session_id draw.created_at) c₁
        creates in
    after_pool _ c₁ _ _ created λ _ c₃ run done.
      let grown = session-insert (drawn_session app user draw) c₁.db c₃.db run in
      let tables : c'.db.sessions ≡ c₁.db.sessions ++ drawn_session app user draw ∷ [] =
        ap (λ (o : Result Response Response × Conn). o.1.db.sessions) (sym fin)
        ∙ ap (λ (o : Result AppError (String × Session) × Conn). o.1.db.sessions) (sym done)
        ∙ grown in
      record {
        body = ground (arith, fin);
        stored = (c₁.db.sessions, tables);
        retired = λ old later shown other. rw tables (
            none-append (is_live (hash_token app.platform old) later) c₁.db.sessions
              (drawn_session app user draw ∷ [])
              (retire-None app _ old draw.now later c c₁ shown retires)
              (other_session _ (drawn_session app user draw) later other, tt));
      }

-- A sign-in form that was answered with a redirect.
pub record SignedIn (app : AppState) (headers : Headers) (form : SignInForm) (draw : PageDraw)
    (before after : Db) (response : Response) (location : String) : Type 0 where
  pub user : User
  pub known : IsKnown app.platform before form.email form.password user
  pub same_site : verify app.platform headers form.csrf_token ≡ true
  pub path : location ≡ safe_return_to app.platform (unwrap_or "/" form.return_to)
  pub started :
      Started app headers user
        (safe_return_to app.platform (unwrap_or "/" form.return_to))
        draw
        after
        response

abbrev body_of : Response → Result Response Response → Body
body_of d (ok r) = r.body
body_of d (err r) = d.body
