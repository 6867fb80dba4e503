-- ===== src/Web/Portal/Ownership.antt =====
-- Who can change an application in the portal.
use sharp_oauth.Prelude.{
  ◌≡◌, refl, ◌⊎◌, true, ◌&&◌, String, Option, none, some, ok, arith, find, ◌==◌, eqb, eq_iff,
  is_some_and,
}
use sharp_oauth.Prelude.Rows.{In, find-In, find-passes}
use sharp_oauth.Storage.{Db, Time, Uuid, User, OAuthClient}
use sharp_oauth.Storage.Clients.{find_owned, is_owned_by}
use sharp_oauth.Storage.Conn.{Conn, M, pure, throw}
use sharp_oauth.Storage.Conn.Steps.{>>=-ok, convert-ok, on_pool-ok}
use sharp_oauth.Storage.Conn.Rollback.{
  KeepsDb, KeepsDb-pure, KeepsDb-throw, KeepsDb-on_pool, KeepsDb-bind, KeepsDb-convert,
}
use sharp_oauth.State.{AppState}
use sharp_oauth.OAuth.Params.{Pairs}
use sharp_oauth.Developer.Form
use sharp_oauth.Developer.Apps
use sharp_oauth.Web.Http.{Headers, Response, internal_error}
use sharp_oauth.Web.Csrf.{verify}
use sharp_oauth.Web.SignedIn.Presence.{IsPresent}
use sharp_oauth.Storage.Conn.Holds.{Holds}
use sharp_oauth.Web.Portal.Touches.{Touches}
use sharp_oauth.Web.Portal
use sharp_oauth.Web.Portal.{PortalDraw, found_app, owned_app}

found_app-KeepsDb : (found : Option OAuthClient) → KeepsDb (found_app found)
unfolding found_app
found_app-KeepsDb none = KeepsDb-throw _
found_app-KeepsDb (some client) = KeepsDb-pure _

pub owned_app-KeepsDb : (user : User) (client_id : String) → KeepsDb (owned_app user client_id)
unfolding owned_app Apps.find find_owned
owned_app-KeepsDb user client_id =
    KeepsDb-bind _ _ (KeepsDb-convert _ _ (KeepsDb-on_pool _ _ (λ d. refl)))
      λ found. found_app-KeepsDb found

found_app-ok :
    (found : Option OAuthClient) (c c' : Conn) (client : OAuthClient)
    → found_app found c ≡ (ok client, c')
    → found ≡ some client
unfolding found_app pure throw
found_app-ok none c c' client h = ground arith
found_app-ok (some row) c c' client h = ground arith

-- A stored application with this id and this owner.
pub record IsOwned (d : Db) (user : User) (client_id : String) (client : OAuthClient) : Type 0 where
  pub listed : In client d.clients
  pub named : client.client_id ≡ client_id
  pub owner : client.owner_user_id ≡ some user.id

owned_by :
    (owner : Uuid) (o : Option Uuid) → is_some_and o (λ id. eqb id owner) ≡ true → o ≡ some owner
owned_by owner none h = ground arith
owned_by owner (some id) h = ground arith

pub owned_app-IsOwned :
    (user : User) (client_id : String) (c c' : Conn) (client : OAuthClient)
    → owned_app user client_id c ≡ (ok client, c')
    → IsOwned c.db user client_id client
unfolding owned_app Apps.find find_owned
owned_app-IsOwned user client_id c c' client h =
    let (found, c₁, looked, rest) = >>=-ok _ found_app c h in
    let is_client = found_app-ok found c₁ c' client rest in
    let run =
      on_pool-ok _ _ c
        (convert-ok {F = Response} internal_error (Apps.find user client_id) c looked) in
    let hit : find (λ (row : OAuthClient). row.client_id == client_id && is_owned_by user.id row)
          c.db.clients
        ≡ some client =
      ground (arith, run, is_client) in
    let passes = find-passes _ _ client hit in
    record {
      listed = find-In _ _ client hit;
      named = (eq_iff client.client_id client_id).0 (ground arith);
      owner = owned_by user.id client.owner_user_id (ground arith);
    }

-- The request comes from a browser with a live session of the owner of the application and carries
-- the browser's CSRF token, and only that application has changed, with what hangs on it.
pub record IsAuthorised (app : AppState) (headers : Headers) (now : Time) (client_id : String)
    (submitted : Option String) (d d' : Db) : Type 0 where
  pub user : User
  pub client : OAuthClient
  pub present : IsPresent app headers now d user
  pub owned : IsOwned d user client_id client
  pub same_site : verify app.platform headers submitted ≡ true
  pub touched : Touches client.id d d'

-- Nothing has changed, or the request was authorised.
abbrev pub ChangedByOwner : AppState → Headers → Time → String → Option String → Db → Db → Type 0
ChangedByOwner app headers now client_id submitted d d' =
    (d' ≡ d) ⊎ IsAuthorised app headers now client_id submitted d d'

-- The forms that change or delete one application.
pub data Change : Type 0 where
  update rotate_secret delete : Change

unfoldable pub apply :
    Change → AppState → Headers → String → Pairs → PortalDraw → M Response Response
apply update app headers client_id pairs draw = Portal.update app headers client_id pairs draw
apply rotate_secret app headers client_id pairs draw =
    Portal.rotate_secret app headers client_id pairs draw
apply delete app headers client_id pairs draw = Portal.delete app headers client_id pairs draw
