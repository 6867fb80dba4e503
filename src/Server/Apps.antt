-- ===== src/Server/Apps.antt =====
-- The developer portal keeps what every statement keeps.
use sharp_oauth.Prelude.{Bool, true, false, ℕ, String, Option, none, some, Result, ok, err}
use sharp_oauth.Platform.{Bytes}
use sharp_oauth.Storage.{Session, Db, Time, User, OAuthClient, AuthorizationCode, RefreshToken}
use sharp_oauth.Storage.Clients.{list_by_owner, find_owned, count_by_owner}
use sharp_oauth.Storage.Scopes.{find_by_names, list_all}
use sharp_oauth.Storage.Conn.Preserve.{
  Preserves, Preserves-pure, Preserves-throw, Preserves-lift, Preserves-on_pool, Preserves-convert,
  Preserves-attempt, Preserves-bind, Preserves-if,
}
use sharp_oauth.State.{AppState}
use sharp_oauth.OAuth.Params.{Pairs}
use sharp_oauth.OAuth.Client.Details.{ClientDetails, validate_details}
use sharp_oauth.OAuth.Client.Registry
use sharp_oauth.OAuth.Client.Registry.{NewClient, ClientDraw, RegisteredClient}
use sharp_oauth.Developer.Form.{AppForm}
use sharp_oauth.Developer.Apps
use sharp_oauth.Developer.Apps.{AppFormError, limit_reached, invalid, create_within}
use sharp_oauth.Web.Http.{Headers, DeveloperAppMessages}
use sharp_oauth.Web.Portal
use sharp_oauth.Web.Portal.{PortalDraw}
use sharp_oauth.Server.Closed.{Closed}
use sharp_oauth.Server.Browsers.{signed_in_user-Preserves, guarded-Preserves}

module _ {I : Db → Type 0} {MayStore : AuthorizationCode → Type 0}
    {MayIssue : RefreshToken → Type 0} {MayOpen : Session → Type 0}
    (closed : Closed I MayStore MayIssue MayOpen) (app : AppState) where
  validate_details-Preserves :
      (details : ClientDetails) → Preserves I (validate_details app.platform details)
  unfolding validate_details find_by_names
  validate_details-Preserves details = Preserves-bind _ _ (Preserves-lift _) λ _.
      Preserves-bind _ _ (Preserves-lift _) λ _. Preserves-bind _ _ (Preserves-lift _) λ _.
        Preserves-bind _ _ (Preserves-lift _) λ _. Preserves-bind _ _ (Preserves-lift _) λ _.
          Preserves-bind _ _ (Preserves-lift _) λ _.
            Preserves-bind _ _ (Preserves-on_pool _ _ (λ d h. h))
              λ _. Preserves-bind _ _ (Preserves-lift _) λ _. Preserves-pure _

  register-Preserves :
      (new : NewClient) (draw : ClientDraw) → Preserves I (Registry.register app.platform new draw)
  unfolding Registry.register
  register-Preserves new draw =
      Preserves-bind _ _ (validate_details-Preserves _) λ _.
        Preserves-bind _ _ (Preserves-on_pool _ _ (closed.client_insert _)) λ _. Preserves-pure _

  update_details-Preserves :
      (client : OAuthClient) (chosen : ClientDetails) (now : Time)
      → Preserves I (Registry.update_details app.platform client chosen now)
  unfolding Registry.update_details
  update_details-Preserves client chosen now =
      Preserves-bind _ _ (validate_details-Preserves chosen) λ _.
        Preserves-bind _ _ (Preserves-on_pool _ _ (closed.client_update _ _ _ _ now))
          λ _. Preserves-pure _

  rotate_secret-Preserves :
      (client : OAuthClient) (bytes : Bytes) (now : Time)
      → Preserves I (Registry.rotate_secret app.platform client bytes now)
  unfolding Registry.rotate_secret
  rotate_secret-Preserves client bytes now = Preserves-if _ _ _ (Preserves-pure _) (
      Preserves-bind _ _ (Preserves-on_pool _ _ (closed.client_secret _ _ now))
        λ _. Preserves-pure _)

  create_within-Preserves :
      (user : User) (form : AppForm) (draw : ClientDraw) (full : Bool)
      → Preserves I (create_within app.platform user form draw full)
  unfolding create_within
  create_within-Preserves user form draw true = Preserves-throw _
  create_within-Preserves user form draw false = Preserves-convert _ _ (register-Preserves _ draw)

  create-Preserves :
      (user : User) (form : AppForm) (draw : ClientDraw)
      → Preserves I (Apps.create app.platform user form draw)
  unfolding Apps.create count_by_owner
  create-Preserves user form draw =
      Preserves-bind _ _ (Preserves-on_pool _ _ (λ d h. h))
        λ _. create_within-Preserves user form draw _

  new_app_form-Preserves :
      (headers : Headers) (status : ℕ) (form : AppForm) (e : Option String) (bytes : Bytes)
      → Preserves I (Portal.new_app_form app headers status form e bytes)
  unfolding Portal.new_app_form list_all
  new_app_form-Preserves headers status form e bytes =
      Preserves-bind _ _ (Preserves-on_pool _ _ (λ d h. h)) λ _. Preserves-pure _

  app_page-Preserves :
      (headers : Headers) (status : ℕ) (client : OAuthClient) (form : AppForm)
      (messages : DeveloperAppMessages) (bytes : Bytes)
      → Preserves I (Portal.app_page app headers status client form messages bytes)
  unfolding Portal.app_page list_all
  app_page-Preserves headers status client form messages bytes =
      Preserves-bind _ _ (Preserves-on_pool _ _ (λ d h. h)) λ _. Preserves-pure _

  found_app-Preserves : (found : Option OAuthClient) → Preserves I (Portal.found_app found)
  unfolding Portal.found_app
  found_app-Preserves none = Preserves-throw _
  found_app-Preserves (some client) = Preserves-pure _

  owned_app-Preserves :
      (user : User) (client_id : String) → Preserves I (Portal.owned_app user client_id)
  unfolding Portal.owned_app Apps.find find_owned
  owned_app-Preserves user client_id =
      Preserves-bind _ _ (Preserves-convert _ _ (Preserves-on_pool _ _ (λ d h. h)))
        λ found. found_app-Preserves found

  pub list_apps-Preserves :
      (headers : Headers) (path notice : Option String) (now : Time)
      → Preserves I (Portal.list app headers path notice now)
  unfolding Portal.list Apps.list list_by_owner
  list_apps-Preserves headers path notice now =
      Preserves-bind _ _ (signed_in_user-Preserves closed app headers path now) λ user.
        Preserves-bind _ _ (Preserves-convert _ _ (Preserves-on_pool _ _ (λ d h. h)))
          λ _. Preserves-pure _

  pub new_app-Preserves :
      (headers : Headers) (path : Option String) (draw : PortalDraw)
      → Preserves I (Portal.new_page app headers path draw)
  unfolding Portal.new_page
  new_app-Preserves headers path draw =
      Preserves-bind _ _ (signed_in_user-Preserves closed app headers path draw.seen_at)
        λ user. new_app_form-Preserves headers 200 _ _ _

  created-Preserves :
      (headers : Headers) (form : AppForm) (draw : PortalDraw)
      (outcome : Result AppFormError RegisteredClient)
      → Preserves I (Portal.created app headers form draw outcome)
  unfolding Portal.created
  created-Preserves headers form draw (ok registered) = app_page-Preserves headers 201 _ _ _ _
  created-Preserves headers form draw (err limit_reached) = new_app_form-Preserves headers 422 _ _ _
  created-Preserves headers form draw (err (invalid text)) =
      new_app_form-Preserves headers 422 _ _ _
  created-Preserves headers form draw (err (Apps.database e)) = Preserves-throw _

  pub create_app-Preserves :
      (headers : Headers) (pairs : Pairs) (draw : PortalDraw)
      → Preserves I (Portal.create app headers pairs draw)
  unfolding Portal.create
  create_app-Preserves headers pairs draw =
      Preserves-bind _ _ (signed_in_user-Preserves closed app headers none draw.seen_at) λ user.
        guarded-Preserves closed app headers _ _ (
          Preserves-bind _ _ (Preserves-attempt _ (create-Preserves user _ draw.client))
            λ outcome. created-Preserves headers _ draw outcome)

  pub show_app-Preserves :
      (headers : Headers) (path : Option String) (client_id : String) (notice : Option String)
      (draw : PortalDraw)
      → Preserves I (Portal.show app headers path client_id notice draw)
  unfolding Portal.show
  show_app-Preserves headers path client_id notice draw =
      Preserves-bind _ _ (signed_in_user-Preserves closed app headers path draw.seen_at) λ user.
        Preserves-bind _ _ (owned_app-Preserves user client_id)
          λ client. app_page-Preserves headers 200 client _ _ _

  updated-Preserves :
      (headers : Headers) (client : OAuthClient) (form : AppForm) (draw : PortalDraw)
      (outcome : Result AppFormError (Unit {0}))
      → Preserves I (Portal.updated app headers client form draw outcome)
  unfolding Portal.updated
  updated-Preserves headers client form draw (ok _) = Preserves-pure _
  updated-Preserves headers client form draw (err limit_reached) =
      app_page-Preserves headers 422 client form _ _
  updated-Preserves headers client form draw (err (invalid text)) =
      app_page-Preserves headers 422 client form _ _
  updated-Preserves headers client form draw (err (Apps.database e)) = Preserves-throw _

  pub update_app-Preserves :
      (headers : Headers) (client_id : String) (pairs : Pairs) (draw : PortalDraw)
      → Preserves I (Portal.update app headers client_id pairs draw)
  unfolding Portal.update Apps.update
  update_app-Preserves headers client_id pairs draw =
      Preserves-bind _ _ (signed_in_user-Preserves closed app headers none draw.seen_at) λ user.
        Preserves-bind _ _ (owned_app-Preserves user client_id) λ client.
          guarded-Preserves closed app headers _ _ (
            Preserves-bind _ _
              (Preserves-attempt _
                (Preserves-convert _ _ (update_details-Preserves client _ draw.client.now)))
              λ outcome. updated-Preserves headers client _ draw outcome)

  rotated-Preserves :
      (headers : Headers) (client : OAuthClient) (draw : PortalDraw) (secret : Option String)
      → Preserves I (Portal.rotated app headers client draw secret)
  unfolding Portal.rotated
  rotated-Preserves headers client draw none = Preserves-pure _
  rotated-Preserves headers client draw (some secret) = app_page-Preserves headers 200 client _ _ _

  pub rotate_app-Preserves :
      (headers : Headers) (client_id : String) (pairs : Pairs) (draw : PortalDraw)
      → Preserves I (Portal.rotate_secret app headers client_id pairs draw)
  unfolding Portal.rotate_secret Apps.rotate_secret
  rotate_app-Preserves headers client_id pairs draw =
      Preserves-bind _ _ (signed_in_user-Preserves closed app headers none draw.seen_at) λ user.
        Preserves-bind _ _ (owned_app-Preserves user client_id) λ client.
          guarded-Preserves closed app headers _ _ (
            Preserves-bind _ _ (Preserves-convert _ _ (rotate_secret-Preserves client _ _))
              λ secret. rotated-Preserves headers client draw secret)

  confirmed-Preserves :
      (headers : Headers) (client : OAuthClient) (draw : PortalDraw) (confirm : Bool)
      → Preserves I (Portal.confirmed app headers client draw confirm)
  unfolding Portal.confirmed Apps.delete Registry.delete
  confirmed-Preserves headers client draw false = app_page-Preserves headers 422 client _ _ _
  confirmed-Preserves headers client draw true =
      Preserves-bind _ _
        (Preserves-convert _ _ (
          Preserves-bind _ _ (Preserves-on_pool _ _ (closed.client_delete client.id))
            λ _. Preserves-pure _))
        λ _. Preserves-pure _

  pub delete_app-Preserves :
      (headers : Headers) (client_id : String) (pairs : Pairs) (draw : PortalDraw)
      → Preserves I (Portal.delete app headers client_id pairs draw)
  unfolding Portal.delete
  delete_app-Preserves headers client_id pairs draw =
      Preserves-bind _ _ (signed_in_user-Preserves closed app headers none draw.seen_at) λ user.
        Preserves-bind _ _ (owned_app-Preserves user client_id) λ client.
          guarded-Preserves closed app headers _ _ (confirmed-Preserves headers client draw _)
