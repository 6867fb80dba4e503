-- ===== src/Web/Portal/Changes.antt =====
-- What the three changes of the portal, once they are let through, leave of all other applications.
use sharp_oauth.Prelude.{ℕ, Bool, true, false, refl, String, Option, none, some, Result, ok, err}
use sharp_oauth.Storage.{Db, OAuthClient}
use sharp_oauth.Storage.Scopes.{find_by_names, list_all}
use sharp_oauth.Storage.Conn.{attempt, convert, ◌>>=◌}
use sharp_oauth.Storage.Conn.Rollback.{
  KeepsDb, KeepsDb-pure, KeepsDb-throw, KeepsDb-lift, KeepsDb-on_pool, KeepsDb-bind,
}
use sharp_oauth.Storage.Conn.Holds.{
  Holds, Holds-of_KeepsDb, Holds-on_pool, Holds-convert, Holds-attempt, Holds-bind, Holds-if,
}
use sharp_oauth.State.{AppState}
use sharp_oauth.Platform.{Platform, Bytes}
use sharp_oauth.OAuth.Client.Details.{ClientDetails, validate_details}
use sharp_oauth.OAuth.Client.Registry
use sharp_oauth.OAuth.Client.Registry.{is_confidential}
use sharp_oauth.Developer.Form.{AppForm}
use sharp_oauth.Developer.Apps
use sharp_oauth.Developer.Apps.{AppFormError, limit_reached, invalid}
use sharp_oauth.Web.Http.{Headers, DeveloperAppMessages, internal_error}
use sharp_oauth.Web.Portal
use sharp_oauth.Web.Portal.{PortalDraw}
use sharp_oauth.Web.Portal.Touches
use sharp_oauth.Web.Portal.Touches.{Touches}

validate_details-KeepsDb :
    (p : Platform) (details : ClientDetails) → KeepsDb (validate_details p details)
unfolding validate_details find_by_names
validate_details-KeepsDb p details = KeepsDb-bind _ _ (KeepsDb-lift _) λ _.
    KeepsDb-bind _ _ (KeepsDb-lift _) λ _. KeepsDb-bind _ _ (KeepsDb-lift _) λ _.
      KeepsDb-bind _ _ (KeepsDb-lift _) λ _. KeepsDb-bind _ _ (KeepsDb-lift _) λ _.
        KeepsDb-bind _ _ (KeepsDb-lift _) λ _.
          KeepsDb-bind _ _ (KeepsDb-on_pool _ _ (λ d. refl))
            λ _. KeepsDb-bind _ _ (KeepsDb-lift _) λ _. KeepsDb-pure _

module _ (app : AppState) (headers : Headers) (d : Db) (client : OAuthClient) where
  app_page-KeepsDb :
      (status : ℕ) (form : AppForm) (messages : DeveloperAppMessages) (bytes : Bytes)
      → KeepsDb (Portal.app_page app headers status client form messages bytes)
  unfolding Portal.app_page list_all
  app_page-KeepsDb status form messages bytes =
      KeepsDb-bind _ _ (KeepsDb-on_pool _ _ (λ d. refl)) λ _. KeepsDb-pure _

  updated-KeepsDb :
      (form : AppForm) (draw : PortalDraw) (outcome : Result AppFormError (Unit {0}))
      → KeepsDb (Portal.updated app headers client form draw outcome)
  unfolding Portal.updated
  updated-KeepsDb form draw (ok _) = KeepsDb-pure _
  updated-KeepsDb form draw (err limit_reached) = app_page-KeepsDb 422 form _ _
  updated-KeepsDb form draw (err (invalid text)) = app_page-KeepsDb 422 form _ _
  updated-KeepsDb form draw (err (Apps.database e)) = KeepsDb-throw _

  pub update-Touches :
      (form : AppForm) (draw : PortalDraw)
      → Holds (Touches client.id d) (
          attempt (Apps.update app.platform client form draw.client.now) >>= λ outcome.
          Portal.updated app headers client form draw outcome)
  unfolding Apps.update Registry.update_details
  update-Touches form draw =
      Holds-bind _ _
        (Holds-attempt _ (
          Holds-convert _ _ (
            Holds-bind _ _ (Holds-of_KeepsDb _ (validate_details-KeepsDb app.platform _)) λ details.
              Holds-bind _ _
                (Holds-on_pool _ _
                  (Touches.update_details-Touches client.id d _ _ _ draw.client.now))
                λ _. Holds-of_KeepsDb _ (KeepsDb-pure _))))
        λ outcome. Holds-of_KeepsDb _ (updated-KeepsDb form draw outcome)

  rotated-KeepsDb :
      (draw : PortalDraw) (secret : Option String)
      → KeepsDb (Portal.rotated app headers client draw secret)
  unfolding Portal.rotated
  rotated-KeepsDb draw none = KeepsDb-pure _
  rotated-KeepsDb draw (some secret) = app_page-KeepsDb 200 _ _ _

  pub rotate_secret-Touches :
      (draw : PortalDraw)
      → Holds (Touches client.id d) (
          convert internal_error
            (Apps.rotate_secret app.platform client draw.client.secret_bytes draw.client.now)
          >>= λ secret. Portal.rotated app headers client draw secret)
  unfolding Apps.rotate_secret Registry.rotate_secret
  rotate_secret-Touches draw =
      Holds-bind _ _
        (Holds-convert _ _ (
          Holds-if _ _ _ (Holds-of_KeepsDb _ (KeepsDb-pure _)) (
            Holds-bind _ _
              (Holds-on_pool _ _ (Touches.update_secret_hash-Touches client.id d _ draw.client.now))
              λ _. Holds-of_KeepsDb _ (KeepsDb-pure _))))
        λ secret. Holds-of_KeepsDb _ (rotated-KeepsDb draw secret)

  pub delete-Touches :
      (draw : PortalDraw) (confirm : Bool)
      → Holds (Touches client.id d) (Portal.confirmed app headers client draw confirm)
  unfolding Portal.confirmed Apps.delete Registry.delete
  delete-Touches draw false = Holds-of_KeepsDb _ (app_page-KeepsDb 422 _ _ _)
  delete-Touches draw true =
      Holds-bind _ _
        (Holds-convert _ _ (
          Holds-bind _ _ (Holds-on_pool _ _ (Touches.delete-Touches client.id d))
            λ _. Holds-of_KeepsDb _ (KeepsDb-pure _)))
        λ _. Holds-of_KeepsDb _ (KeepsDb-pure _)
