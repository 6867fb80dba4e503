-- ===== src/Server/Closed.antt =====
-- What a property of the tables needs to hold after every request, statement by statement.
use sharp_oauth.Prelude.{◌≡◌, String, none, List, Bool}
use sharp_oauth.Prelude.Rows.{In}
use sharp_oauth.Storage.{
  Uuid, Time, Db, User, Session, OAuthClient, AuthorizationCode, RefreshToken,
}
use sharp_oauth.Storage.Users
use sharp_oauth.Storage.Sessions
use sharp_oauth.Storage.Clients
use sharp_oauth.Storage.Codes
use sharp_oauth.Storage.Consents
use sharp_oauth.Storage.RefreshTokens
use sharp_oauth.Storage.Conn.Preserve.{Safe}
use sharp_oauth.State.{AppState}
use sharp_oauth.Tokens.Refresh.{new_row}
use sharp_oauth.OAuth.Token.Response.{TokenDraw}
use sharp_oauth.OAuth.Token.Code.{family_of_code}
use sharp_oauth.OAuth.Authorization.Validation.{ValidatedRequest}
use sharp_oauth.OAuth.Authorization.Decision.{AuthorizationDraw, new_code}
use sharp_oauth.Authentication.Browser.{new_session}
use sharp_oauth.Web.Accounts.{PageDraw}
use sharp_oauth.Server.{Request, sign_in, sign_up, authorize, consent, token}

-- The statements that write. Some rows may be barred from being inserted: a request that draws
-- such a row is not allowed, and the successor of a live token is never such a row.
pub record Closed (I : Db → Type 0) (MayStore : AuthorizationCode → Type 0)
    (MayIssue : RefreshToken → Type 0) (MayOpen : Session → Type 0) : Type 0 where
  pub user_insert : (user : User) → Safe I (Users.insert user)
  pub session_insert : (session : Session) → MayOpen session → Safe I (Sessions.insert session)
  pub session_revoke : (hash : String) (now : Time) → Safe I (Sessions.revoke_by_hash hash now)
  pub client_insert : (client : OAuthClient) → Safe I (Clients.insert client)
  pub client_update :
      (id : Uuid) (name : String) (uris scopes : List String) (now : Time)
      → Safe I (Clients.update_details id name uris scopes now)
  pub client_secret :
      (id : Uuid) (hash : String) (now : Time) → Safe I (Clients.update_secret_hash id hash now)
  pub client_delete : (id : Uuid) → Safe I (Clients.delete id)
  pub consent_upsert :
      (id user_id client_id : Uuid) (scopes : List String) (now : Time)
      → Safe I (Consents.upsert id user_id client_id scopes now)
  pub code_insert : (code : AuthorizationCode) → MayStore code → Safe I (Codes.insert code)
  pub code_claim : (hash : String) (now : Time) → Safe I (Codes.claim hash now)
  pub token_insert : (row : RefreshToken) → MayIssue row → Safe I (RefreshTokens.insert row)
  pub token_rotate : (id next : Uuid) → Safe I (RefreshTokens.mark_rotated id next)
  pub token_revoke :
      (chosen : RefreshToken → Bool) (now : Time) → Safe I (RefreshTokens.revoke_rows chosen now)
  pub heir :
      (d : Db) (row next : RefreshToken)
      → I d
      → In row d.refresh_tokens
      → row.revoked_at ≡ none
      → next.family_id ≡ row.family_id
      → MayIssue next

-- The code that a request draws may be stored, whatever it is issued for.
abbrev pub MayGrant : (AuthorizationCode → Type 0) → AppState → AuthorizationDraw → Type 0
MayGrant MayStore app draw =
    (request : ValidatedRequest) (user : User) (session : Session)
    → MayStore (new_code app.platform request user session draw)

-- The first token of the family that a request draws may be issued, whatever the code.
abbrev pub MayStart : (RefreshToken → Type 0) → AppState → TokenDraw → Type 0
MayStart MayIssue app draw =
    (client : OAuthClient) (row : AuthorizationCode)
    → MayIssue (
        new_row app.platform (family_of_code row client draw) draw.token_bytes draw.token_id
          draw.now)

-- The session that a request draws may be opened, whoever signs in.
abbrev pub MayEnter : (Session → Type 0) → AppState → PageDraw → Type 0
MayEnter MayOpen app draw =
    (user : User)
    → MayOpen (new_session app.platform user draw.session_bytes draw.session_id draw.created_at)

-- What a request draws is not barred.
abbrev pub IsAllowed :
    (AuthorizationCode → Type 0)
    → (RefreshToken → Type 0)
    → (Session → Type 0)
    → AppState
    → Request
    → Type 0
IsAllowed MayStore MayIssue MayOpen app (sign_in _ _ draw) = MayEnter MayOpen app draw
IsAllowed MayStore MayIssue MayOpen app (sign_up _ _ draw) = MayEnter MayOpen app draw
IsAllowed MayStore MayIssue MayOpen app (authorize _ _ draw) =
    MayGrant MayStore app draw.authorization
IsAllowed MayStore MayIssue MayOpen app (consent _ _ draw) =
    MayGrant MayStore app draw.authorization
IsAllowed MayStore MayIssue MayOpen app (token _ _ draw) = MayStart MayIssue app draw
IsAllowed MayStore MayIssue MayOpen app _ = Unit

-- Nothing is barred.
abbrev pub AnyCode : AuthorizationCode → Type 0
AnyCode code = Unit

abbrev pub AnyToken : RefreshToken → Type 0
AnyToken row = Unit

abbrev pub AnySession : Session → Type 0
AnySession session = Unit
