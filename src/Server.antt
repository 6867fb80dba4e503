-- ===== src/Server.antt =====
-- src/api/router.rs and the `routes.rs` of the features: the requests that the server answers, and
-- the histories of the tables that they make.
pub mod Closed
pub mod Clients
pub mod Browsers
pub mod Grants
pub mod Apps
pub mod Histories
pub mod Forms
pub mod EndedSessions
pub mod SpentCodes
pub mod DeadFamilies
use sharp_oauth.Prelude.{ℕ, ◌≡◌, Bool, String, Option, Result}
use sharp_oauth.State.{AppState}
use sharp_oauth.Storage.{Time, Db}
use sharp_oauth.Storage.Conn.{Conn}
use sharp_oauth.OAuth.Params.{Pairs}
use sharp_oauth.OAuth.Token.Response.{TokenDraw}
use sharp_oauth.Web.Http.{Headers, Response}
use sharp_oauth.Web.Accounts
use sharp_oauth.Web.Accounts.{PageDraw, SignInForm, SignUpForm}
use sharp_oauth.Web.Authorize
use sharp_oauth.Web.Authorize.{BrowserDraw}
use sharp_oauth.Web.Portal
use sharp_oauth.Web.Portal.{PortalDraw}
use sharp_oauth.Web.Endpoints
use sharp_oauth.Web.Endpoints.{ApiResponse}

-- The routes that reach the database, with what each handler extracts and draws. The path of a GET
-- is what a sign-in returns to.
pub data Request : Type 0 where
  home : Headers → PageDraw → Request
  sign_in : Headers → SignInForm → PageDraw → Request
  sign_up : Headers → SignUpForm → PageDraw → Request
  logout : Headers → Option String → PageDraw → Request
  authorize : Headers → Pairs → BrowserDraw → Request
  consent : Headers → Pairs → BrowserDraw → Request
  list_apps : Headers → Option String → Option String → Time → Request
  new_app : Headers → Option String → PortalDraw → Request
  create_app : Headers → Pairs → PortalDraw → Request
  show_app : Headers → Option String → String → Option String → PortalDraw → Request
  update_app : Headers → String → Pairs → PortalDraw → Request
  rotate_app_secret : Headers → String → Pairs → PortalDraw → Request
  delete_app : Headers → String → Pairs → PortalDraw → Request
  token : Headers → Option Pairs → TokenDraw → Request
  revoke : Headers → Option Pairs → Time → Request
  userinfo : Headers → Time → Request
  discovery : Request

pub data Answer : Type 0 where
  html : Response → Answer
  api : ApiResponse → Answer

abbrev pub html_answer : Result Response Response × Conn → Answer × Conn
html_answer (Result.ok response, c) = (html response, c)
html_answer (Result.err response, c) = (html response, c)

abbrev pub api_answer : Result ApiResponse ApiResponse × Conn → Answer × Conn
api_answer (Result.ok response, c) = (api response, c)
api_answer (Result.err response, c) = (api response, c)

-- `dummy` is the hash that `user.rs` draws at start.
unfoldable pub serve : AppState → String → Request → Conn → Answer × Conn
serve app dummy (home headers draw) c = html_answer (Accounts.home app headers draw c)
serve app dummy (sign_in headers form draw) c =
    html_answer (Accounts.sign_in app dummy headers form draw c)
serve app dummy (sign_up headers form draw) c =
    html_answer (Accounts.sign_up app headers form draw c)
serve app dummy (logout headers csrf_token draw) c =
    html_answer (Accounts.logout app headers csrf_token draw c)
serve app dummy (authorize headers pairs draw) c =
    html_answer (Authorize.authorize app headers pairs draw c)
serve app dummy (consent headers pairs draw) c =
    html_answer (Authorize.consent app headers pairs draw c)
serve app dummy (list_apps headers path notice seen_at) c =
    html_answer (Portal.list app headers path notice seen_at c)
serve app dummy (new_app headers path draw) c =
    html_answer (Portal.new_page app headers path draw c)
serve app dummy (create_app headers pairs draw) c =
    html_answer (Portal.create app headers pairs draw c)
serve app dummy (show_app headers path client_id notice draw) c =
    html_answer (Portal.show app headers path client_id notice draw c)
serve app dummy (update_app headers client_id pairs draw) c =
    html_answer (Portal.update app headers client_id pairs draw c)
serve app dummy (rotate_app_secret headers client_id pairs draw) c =
    html_answer (Portal.rotate_secret app headers client_id pairs draw c)
serve app dummy (delete_app headers client_id pairs draw) c =
    html_answer (Portal.delete app headers client_id pairs draw c)
serve app dummy (token headers form draw) c = api_answer (Endpoints.token app headers form draw c)
serve app dummy (revoke headers form now) c = api_answer (Endpoints.revoke app headers form now c)
serve app dummy (userinfo headers now) c = api_answer (Endpoints.userinfo app headers now c)
serve app dummy discovery c = api_answer (Endpoints.discovery app c)

-- A request starts with the committed tables and no transaction of its own.
abbrev pub opening : Db → (ℕ → Bool) → Conn
opening d fails = record { db = d; tx = d; calls = 0; fails = fails }

-- One answered request that the condition allows, with any failures of the database.
pub data Step (app : AppState) (dummy : String) (Allowed : Request → Type 0) (d d' : Db)
    : Type 0 where
  answered :
      (r : Request) (fails : ℕ → Bool)
      → Allowed r
      → d' ≡ (serve app dummy r (opening d fails)).1.db
      → Step app dummy Allowed d d'

-- Any number of requests, one after the other.
pub data Reach (app : AppState) (dummy : String) (Allowed : Request → Type 0) (d : Db)
    : Db → Type 0 where
  start : Reach app dummy Allowed d d
  later :
      {d₁ d₂ : Db}
      → Reach app dummy Allowed d d₁
      → Step app dummy Allowed d₁ d₂
      → Reach app dummy Allowed d d₂
