-- ===== src/Web/Portal.antt =====
-- src/developer/controllers/apps.rs: the pages of the developer portal.
pub mod Touches
pub mod Changes
pub mod Ownership
use Prim.Native.String
use sharp_oauth.Prelude.{
  ℕ, Bool, true, false, not, String, Option, none, some, List, [], ◌∷◌, Result, ok, err, ◌==◌,
  is_some, is_some_and, if◌then◌else◌,
}
use sharp_oauth.Error.{DbErr}
use sharp_oauth.Platform.{Bytes}
use sharp_oauth.State.{AppState}
use sharp_oauth.Storage.{Time, User, OAuthClient, ScopeDescription}
use sharp_oauth.Storage.Scopes.{list_all}
use sharp_oauth.Storage.Conn.{M, pure, throw, on_pool, convert, attempt, ◌>>=◌, ◌>>◌}
use sharp_oauth.OAuth.Params.{Pairs}
use sharp_oauth.OAuth.Client.Registry.{ClientDraw, RegisteredClient}
use sharp_oauth.Developer.Form.{AppForm, default_form, from_pairs, from_client}
use sharp_oauth.Developer.Apps
use sharp_oauth.Developer.Apps.{AppFormError, message}
use sharp_oauth.Web.Http.{
  Headers, Response, DeveloperAppMessages, redirect, internal_error, error_page,
  developer_apps_page, developer_new_app_page, developer_app_page,
}
use sharp_oauth.Web.SignedIn.{signed_in_user}
use sharp_oauth.Web.Accounts.{with_issued, guarded}

-- What a request draws: the clock of the session lookup, a CSRF token, and the service's draws.
pub record PortalDraw : Type 0 where
  pub seen_at : Time
  pub csrf_bytes : Bytes
  pub client : ClientDraw

abbrev pub no_messages : DeveloperAppMessages
no_messages = record { new_secret = none; notice = none; error = none }

-- `notice`, when the query names the one that is known.
abbrev known_notice : String → String → Option String → Option String
known_notice name text query =
    if is_some_and query (λ given. given == name) then some text else none

unfoldable pub list :
    AppState → Headers → Option String → Option String → Time → M Response Response
list app headers path notice seen_at = do
  user ← signed_in_user app headers path seen_at
  apps ← convert internal_error (Apps.list user)
  pure (
      developer_apps_page apps
        (known_notice "deleted" "Application deleted. Its tokens no longer work." notice))

unfoldable pub new_app_form :
    AppState → Headers → ℕ → AppForm → Option String → Bytes → M Response Response
new_app_form app headers status form error csrf_bytes = do
  scopes ← on_pool internal_error list_all
  pure (
      with_issued app headers csrf_bytes
        (λ csrf. developer_new_app_page status csrf scopes form error))

unfoldable pub app_page :
    AppState
    → Headers
    → ℕ
    → OAuthClient
    → AppForm
    → DeveloperAppMessages
    → Bytes
    → M Response Response
app_page app headers status client form messages csrf_bytes = do
  scopes ← on_pool internal_error list_all
  pure (
      with_issued app headers csrf_bytes
        (λ csrf. developer_app_page status csrf app.config.issuer client scopes form messages))

unfoldable pub new_page : AppState → Headers → Option String → PortalDraw → M Response Response
new_page app headers path draw = do
  user ← signed_in_user app headers path draw.seen_at
  new_app_form app headers 200
      (record default_form { scopes = "openid" ∷ []; client_type = "confidential" }) none
      draw.csrf_bytes

abbrev created_notice : Option String → String
created_notice none = "Application created."
created_notice (some _) =
    "Application created. Copy the client secret now: it will not be shown again."

-- The match on the outcome of `apps::create`.
unfoldable pub created :
    AppState
    → Headers
    → AppForm
    → PortalDraw
    → Result AppFormError RegisteredClient
    → M Response Response
created app headers form draw (ok registered) =
    app_page app headers 201 registered.client (from_client registered.client)
      (record {
        new_secret = registered.client_secret;
        notice = some (created_notice registered.client_secret);
        error = none;
      })
      draw.csrf_bytes
created app headers form draw (err (Apps.database e)) = throw (internal_error e)
created app headers form draw (err e) =
    new_app_form app headers 422 form (some (message e)) draw.csrf_bytes

unfoldable pub create : AppState → Headers → Pairs → PortalDraw → M Response Response
create app headers pairs draw = do
  user ← signed_in_user app headers none draw.seen_at
  let form = from_pairs pairs
  guarded app headers form.csrf_token (do
    outcome ← attempt (Apps.create app.platform user form draw.client)
    created app headers form draw outcome)

-- The match on the outcome of `apps::find`: someone else's application is not found either.
unfoldable pub found_app : Option OAuthClient → M Response OAuthClient
found_app none = throw (
    error_page 404 "Application not found"
      "It may have been deleted, or it belongs to a different Sharpnr account.")
found_app (some client) = pure client

unfoldable pub owned_app : User → String → M Response OAuthClient
owned_app user client_id = do
  found ← convert internal_error (Apps.find user client_id)
  found_app found

unfoldable pub show :
    AppState → Headers → Option String → String → Option String → PortalDraw → M Response Response
show app headers path client_id notice draw = do
  user ← signed_in_user app headers path draw.seen_at
  client ← owned_app user client_id
  app_page app headers 200 client (from_client client)
      (record no_messages { notice = known_notice "saved" "Changes saved." notice }) draw.csrf_bytes

abbrev app_path : OAuthClient → String → String
app_path client query = String.◌++◌ "/developer/apps/" (String.◌++◌ client.client_id query)

-- The match on the outcome of `apps::update`.
unfoldable pub updated :
    AppState
    → Headers
    → OAuthClient
    → AppForm
    → PortalDraw
    → Result AppFormError (Unit {0})
    → M Response Response
updated app headers client form draw (ok _) = pure (redirect (app_path client "?notice=saved"))
updated app headers client form draw (err (Apps.database e)) = throw (internal_error e)
updated app headers client form draw (err e) =
    app_page app headers 422 client form (record no_messages { error = some (message e) })
      draw.csrf_bytes

unfoldable pub update : AppState → Headers → String → Pairs → PortalDraw → M Response Response
update app headers client_id pairs draw = do
  user ← signed_in_user app headers none draw.seen_at
  client ← owned_app user client_id
  let form = from_pairs pairs
  guarded app headers form.csrf_token (do
    outcome ← attempt (Apps.update app.platform client form draw.client.now)
    updated app headers client form draw outcome)

-- The match on the outcome of `apps::rotate_secret`.
unfoldable pub rotated :
    AppState → Headers → OAuthClient → PortalDraw → Option String → M Response Response
rotated app headers client draw none = pure (redirect (app_path client ""))
rotated app headers client draw (some secret) =
    app_page app headers 200 client (from_client client)
      (record {
        new_secret = some secret;
        notice = some "New client secret created. The old secret has stopped working.";
        error = none;
      })
      draw.csrf_bytes

unfoldable pub rotate_secret :
    AppState → Headers → String → Pairs → PortalDraw → M Response Response
rotate_secret app headers client_id pairs draw = do
  user ← signed_in_user app headers none draw.seen_at
  client ← owned_app user client_id
  guarded app headers (from_pairs pairs).csrf_token (do
    secret ←
        convert internal_error
          (Apps.rotate_secret app.platform client draw.client.secret_bytes draw.client.now)
    rotated app headers client draw secret)

-- The rest of `delete`, by whether the box is ticked.
unfoldable pub confirmed :
    AppState → Headers → OAuthClient → PortalDraw → Bool → M Response Response
confirmed app headers client draw false =
    app_page app headers 422 client (from_client client)
      (record no_messages { error = some "Tick the confirmation box to delete this application." })
      draw.csrf_bytes
confirmed app headers client draw true = do
  convert internal_error (Apps.delete client)
  pure (redirect "/developer/apps?notice=deleted")

unfoldable pub delete : AppState → Headers → String → Pairs → PortalDraw → M Response Response
delete app headers client_id pairs draw = do
  user ← signed_in_user app headers none draw.seen_at
  client ← owned_app user client_id
  let form = from_pairs pairs
  guarded app headers form.csrf_token (confirmed app headers client draw form.confirm)
