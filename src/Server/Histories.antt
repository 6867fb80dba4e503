-- ===== src/Server/Histories.antt =====
-- Every request, and so every history of requests, keeps what every statement keeps.
use sharp_oauth.Prelude.{String, Result, ok, err}
use sharp_oauth.Storage.{Session, Db, AuthorizationCode, RefreshToken}
use sharp_oauth.Storage.Conn.{Conn}
use sharp_oauth.State.{AppState}
use sharp_oauth.Web.Http.{Response}
use sharp_oauth.Web.Endpoints.{ApiResponse}
use sharp_oauth.Server
use sharp_oauth.Server.{
  Request, serve, html_answer, api_answer, Step, Reach, answered, start, later,
}
use sharp_oauth.Server.Closed.{Closed, IsAllowed}
use sharp_oauth.Server.Clients.{
  token-Preserves, revoke-Preserves, userinfo-Preserves, discovery-Preserves,
}
use sharp_oauth.Server.Browsers.{
  home-Preserves, sign_in-Preserves, sign_up-Preserves, logout-Preserves,
}
use sharp_oauth.Server.Grants.{authorize-Preserves, consent-Preserves}
use sharp_oauth.Server.Apps.{
  list_apps-Preserves, new_app-Preserves, create_app-Preserves, show_app-Preserves,
  update_app-Preserves, rotate_app-Preserves, delete_app-Preserves,
}

module _ {I : Db → Type 0} {MayStore : AuthorizationCode → Type 0}
    {MayIssue : RefreshToken → Type 0} {MayOpen : Session → Type 0}
    (closed : Closed I MayStore MayIssue MayOpen) (app : AppState) (dummy : String) where
  html-keeps : (o : Result Response Response × Conn) → I o.1.db → I (html_answer o).1.db
  html-keeps (ok response, c) h = h
  html-keeps (err response, c) h = h

  api-keeps : (o : Result ApiResponse ApiResponse × Conn) → I o.1.db → I (api_answer o).1.db
  api-keeps (ok response, c) h = h
  api-keeps (err response, c) h = h

  pub serve-keeps :
      (r : Request) (c : Conn)
      → IsAllowed MayStore MayIssue MayOpen app r
      → I c.db
      → I c.tx
      → I (serve app dummy r c).1.db
  unfolding serve
  serve-keeps (Server.home headers draw) c may h k =
      html-keeps _ ((home-Preserves closed app headers draw).at c h k).0
  serve-keeps (Server.sign_in headers form draw) c may h k =
      html-keeps _ ((sign_in-Preserves closed app dummy headers form draw may).at c h k).0
  serve-keeps (Server.sign_up headers form draw) c may h k =
      html-keeps _ ((sign_up-Preserves closed app headers form draw may).at c h k).0
  serve-keeps (Server.logout headers csrf_token draw) c may h k =
      html-keeps _ ((logout-Preserves closed app headers csrf_token draw).at c h k).0
  serve-keeps (Server.authorize headers pairs draw) c may h k =
      html-keeps _ ((authorize-Preserves closed app headers pairs draw may).at c h k).0
  serve-keeps (Server.consent headers pairs draw) c may h k =
      html-keeps _ ((consent-Preserves closed app headers pairs draw may).at c h k).0
  serve-keeps (Server.list_apps headers path notice now) c may h k =
      html-keeps _ ((list_apps-Preserves closed app headers path notice now).at c h k).0
  serve-keeps (Server.new_app headers path draw) c may h k =
      html-keeps _ ((new_app-Preserves closed app headers path draw).at c h k).0
  serve-keeps (Server.create_app headers pairs draw) c may h k =
      html-keeps _ ((create_app-Preserves closed app headers pairs draw).at c h k).0
  serve-keeps (Server.show_app headers path client_id notice draw) c may h k =
      html-keeps _ ((show_app-Preserves closed app headers path client_id notice draw).at c h k).0
  serve-keeps (Server.update_app headers client_id pairs draw) c may h k =
      html-keeps _ ((update_app-Preserves closed app headers client_id pairs draw).at c h k).0
  serve-keeps (Server.rotate_app_secret headers client_id pairs draw) c may h k =
      html-keeps _ ((rotate_app-Preserves closed app headers client_id pairs draw).at c h k).0
  serve-keeps (Server.delete_app headers client_id pairs draw) c may h k =
      html-keeps _ ((delete_app-Preserves closed app headers client_id pairs draw).at c h k).0
  serve-keeps (Server.token headers form draw) c may h k =
      api-keeps _ ((token-Preserves closed app headers form draw may).at c h k).0
  serve-keeps (Server.revoke headers form now) c may h k =
      api-keeps _ ((revoke-Preserves closed app headers form now).at c h k).0
  serve-keeps (Server.userinfo headers now) c may h k =
      api-keeps _ ((userinfo-Preserves closed app headers now).at c h k).0
  serve-keeps Server.discovery c may h k = api-keeps _ ((discovery-Preserves closed app).at c h k).0

  module _ {Allowed : Request → Type 0}
      (allows : (r : Request) → Allowed r → IsAllowed MayStore MayIssue MayOpen app r) where
    Step-keeps : {d d' : Db} → Step app dummy Allowed d d' → I d → I d'
    Step-keeps (answered r fails may e) h = rw e (serve-keeps r _ (allows r may) h h)

    pub Reach-keeps : {d d' : Db} → Reach app dummy Allowed d d' → I d → I d'
    Reach-keeps start h = h
    Reach-keeps (later r st) h = Step-keeps st (Reach-keeps r h)
