-- ===== src/Server/Forms.antt =====
-- Forms that another site submits through the user's browser.
use sharp_oauth.Prelude.{
  ◌≡◌, ◌⊎◌, Result-cases, refl, sym, ap, arith, true, false, String, Option, none, some, Result, ok,
  err, Bool-cases, inl, inr,
}
use sharp_oauth.Platform.{Platform, ComparesTexts}
use sharp_oauth.Secret.{constant_time_eq}
use sharp_oauth.Storage.{Db, OAuthClient}
use sharp_oauth.Storage.Conn.{Conn, M, ◌>>=◌}
use sharp_oauth.Storage.Conn.Rollback.{KeepsDb, KeepsDb-throw, KeepsDb-bind}
use sharp_oauth.State.{AppState}
use sharp_oauth.OAuth.Params.{Pairs, Params, DuplicateParameter, from_pairs, get}
use sharp_oauth.Developer.Form
use sharp_oauth.Web.Http.{Headers, Response}
use sharp_oauth.Web.Cookies
use sharp_oauth.Web.Csrf
use sharp_oauth.Web.Csrf.{csrf_cookie, csrf_field, verify}
use sharp_oauth.Web.SignedIn.Presence.{current_session-KeepsDb, signed_in_user-KeepsDb}
use sharp_oauth.Web.Accounts
use sharp_oauth.Web.Accounts.{SignInForm, SignUpForm, PageDraw, guarded}
use sharp_oauth.Web.Authorize
use sharp_oauth.Web.Authorize.{BrowserDraw}
use sharp_oauth.Web.Portal
use sharp_oauth.Web.Portal.{PortalDraw, owned_app}
use sharp_oauth.Web.SignedIn.{signed_in_user}
use sharp_oauth.Web.Portal.Ownership.{owned_app-KeepsDb}
use sharp_oauth.Server
use sharp_oauth.Server.{Request, serve, html_answer}

abbrev field_of : Result DuplicateParameter Params → Option String
field_of (ok params) = get params csrf_field
field_of (err e) = none

-- The `csrf_token` field of the consent form.
abbrev pub consent_field : Pairs → Option String
consent_field pairs = field_of (from_pairs pairs)

-- The requests that submit a form, with the browser's headers and the form's token.
pub data IsForm : Request → Headers → Option String → Type 0 where
  sign_in :
      (headers : Headers) (form : SignInForm) (draw : PageDraw)
      → IsForm (Server.sign_in headers form draw) headers form.csrf_token
  sign_up :
      (headers : Headers) (form : SignUpForm) (draw : PageDraw)
      → IsForm (Server.sign_up headers form draw) headers form.csrf_token
  logout :
      (headers : Headers) (csrf_token : Option String) (draw : PageDraw)
      → IsForm (Server.logout headers csrf_token draw) headers csrf_token
  consent :
      (headers : Headers) (pairs : Pairs) (draw : BrowserDraw)
      → IsForm (Server.consent headers pairs draw) headers (consent_field pairs)
  create_app :
      (headers : Headers) (pairs : Pairs) (draw : PortalDraw)
      → IsForm (Server.create_app headers pairs draw) headers (Form.from_pairs pairs).csrf_token
  update_app :
      (headers : Headers) (client_id : String) (pairs : Pairs) (draw : PortalDraw)
      → IsForm
          (Server.update_app headers client_id pairs draw)
          headers
          (Form.from_pairs pairs).csrf_token
  rotate_app_secret :
      (headers : Headers) (client_id : String) (pairs : Pairs) (draw : PortalDraw)
      → IsForm
          (Server.rotate_app_secret headers client_id pairs draw)
          headers
          (Form.from_pairs pairs).csrf_token
  delete_app :
      (headers : Headers) (client_id : String) (pairs : Pairs) (draw : PortalDraw)
      → IsForm
          (Server.delete_app headers client_id pairs draw)
          headers
          (Form.from_pairs pairs).csrf_token

-- The form repeats the CSRF cookie of the browser that submits it.
pub record IsOwnForm (p : Platform) (headers : Headers) (submitted : Option String) : Type 0 where
  pub token : String
  pub cookie : Cookies.get p headers csrf_cookie ≡ some token
  pub field : submitted ≡ some token

matches-own :
    (p : Platform) (cookie submitted : Option String)
    → ComparesTexts p
    → Csrf.matches p cookie submitted ≡ true
    → (token : String) × (cookie ≡ some token) × (submitted ≡ some token)
unfolding constant_time_eq
matches-own p (some a) (some b) compares h = (a, refl, ap some (sym ((compares a b).0 h)))
matches-own p none (some b) compares h = absurd (ground arith)
matches-own p (some a) none compares h = absurd (ground arith)
matches-own p none none compares h = absurd (ground arith)

verify-IsOwnForm :
    (p : Platform) (headers : Headers) (submitted : Option String)
    → ComparesTexts p
    → verify p headers submitted ≡ true
    → IsOwnForm p headers submitted
unfolding verify
verify-IsOwnForm p headers submitted compares h =
    let (token, cookie, field) =
      matches-own p (Cookies.get p headers csrf_cookie) submitted compares h in
    record { token = token; cookie = cookie; field = field }

read_pairs-KeepsDb :
    (pairs : Pairs) (k : Params → M Response Response)
    → ((params : Params) → from_pairs pairs ≡ ok params → KeepsDb (k params))
    → KeepsDb (Authorize.read_pairs pairs >>= k)
unfolding ◌>>=◌
read_pairs-KeepsDb pairs k next = elim (Result-cases (from_pairs pairs)) [
  | inl (params, given) ↦ record { at = λ c. rw given ((next params given).at c) }
  | inr (e, repeated) ↦ record { at = λ c. rw repeated refl }
]

-- A form whose check fails.
module _ (app : AppState) (headers : Headers) where
  guarded-KeepsDb :
      (submitted : Option String) (next : M Response Response)
      → verify app.platform headers submitted ≡ false
      → KeepsDb (guarded app headers submitted next)
  unfolding guarded
  guarded-KeepsDb submitted next forged = rw forged (KeepsDb-throw _)

  consent-KeepsDb :
      (pairs : Pairs) (draw : BrowserDraw)
      → verify app.platform headers (consent_field pairs) ≡ false
      → KeepsDb (Authorize.consent app headers pairs draw)
  unfolding Authorize.consent
  consent-KeepsDb pairs draw forged =
      KeepsDb-bind _ _ (current_session-KeepsDb app headers draw.seen_at) λ session.
        read_pairs-KeepsDb pairs _
          λ params given. guarded-KeepsDb (get params csrf_field) _ (rw given at forged)

  portal-KeepsDb :
      (submitted : Option String) (client_id : String) (draw : PortalDraw)
      (next : OAuthClient → M Response Response)
      → verify app.platform headers submitted ≡ false
      → KeepsDb (
          signed_in_user app headers none draw.seen_at >>= λ user.
          owned_app user client_id >>= λ client. guarded app headers submitted (next client))
  portal-KeepsDb submitted client_id draw next forged =
      KeepsDb-bind _ _ (signed_in_user-KeepsDb app headers none draw.seen_at) λ user.
        KeepsDb-bind _ _ (owned_app-KeepsDb user client_id)
          λ client. guarded-KeepsDb submitted (next client) forged

html-kept : (o : Result Response Response × Conn) (d : Db) → o.1.db ≡ d → (html_answer o).1.db ≡ d
html-kept (ok response, c) d h = h
html-kept (err response, c) d h = h

forged-keeps :
    (app : AppState) (dummy : String) (r : Request) (headers : Headers) (submitted : Option String)
    (c : Conn)
    → IsForm r headers submitted
    → verify app.platform headers submitted ≡ false
    → (serve app dummy r c).1.db ≡ c.db
unfolding serve Accounts.sign_in Accounts.sign_up Accounts.logout Portal.create Portal.update
    Portal.rotate_secret Portal.delete
forged-keeps app dummy r headers submitted c (sign_in _ form draw) forged =
    html-kept _ c.db ((guarded-KeepsDb app headers form.csrf_token _ forged).at c)
forged-keeps app dummy r headers submitted c (sign_up _ form draw) forged =
    html-kept _ c.db ((guarded-KeepsDb app headers form.csrf_token _ forged).at c)
forged-keeps app dummy r headers submitted c (logout _ token draw) forged =
    html-kept _ c.db ((guarded-KeepsDb app headers token _ forged).at c)
forged-keeps app dummy r headers submitted c (consent _ pairs draw) forged =
    html-kept _ c.db ((consent-KeepsDb app headers pairs draw forged).at c)
forged-keeps app dummy r headers submitted c (create_app _ pairs draw) forged = html-kept _ c.db (
    (KeepsDb-bind _ _ (signed_in_user-KeepsDb app headers none draw.seen_at)
        λ user. guarded-KeepsDb app headers (Form.from_pairs pairs).csrf_token _ forged).at
      c)
forged-keeps app dummy r headers submitted c (update_app _ client_id pairs draw) forged =
    html-kept _ c.db
      ((portal-KeepsDb app headers (Form.from_pairs pairs).csrf_token client_id draw _ forged).at c)
forged-keeps app dummy r headers submitted c (rotate_app_secret _ client_id pairs draw) forged =
    html-kept _ c.db
      ((portal-KeepsDb app headers (Form.from_pairs pairs).csrf_token client_id draw _ forged).at c)
forged-keeps app dummy r headers submitted c (delete_app _ client_id pairs draw) forged =
    html-kept _ c.db
      ((portal-KeepsDb app headers (Form.from_pairs pairs).csrf_token client_id draw _ forged).at c)

-- No cross-site request forgery: a submitted form changes no table, unless it repeats the CSRF
-- cookie of the browser that submits it. That goes for signing in, up and out, for the consent and
-- for every form of the developer portal.
pub forged_form :
    (app : AppState) (dummy : String) (r : Request) (headers : Headers) (submitted : Option String)
    (c : Conn)
    → ComparesTexts app.platform
    → IsForm r headers submitted
    → ((serve app dummy r c).1.db ≡ c.db) ⊎ IsOwnForm app.platform headers submitted
forged_form app dummy r headers submitted c compares form =
    elim (Bool-cases (verify app.platform headers submitted)) [
      | inl own ↦ inr (verify-IsOwnForm app.platform headers submitted compares own)
      | inr forged ↦ inl (forged-keeps app dummy r headers submitted c form forged)
    ]
