-- ===== src/OAuth/Client/Registry.antt =====
-- Registration of clients and the changes that their owners make.
pub mod Changes
use Prim.Native.String
use sharp_oauth.Prelude.{
  Bool, not, String, Option, none, some, List, is_some, is_none, any, ◌==◌, if◌then◌else◌,
  take_codes,
}
use sharp_oauth.Error.{DbErr}
use sharp_oauth.Platform.{Platform, Bytes}
use sharp_oauth.Secret.{generate_token, hash_token}
use sharp_oauth.Scope.{ScopeSet, from_iter}
use sharp_oauth.Storage.{Uuid, Time, OAuthClient}
use sharp_oauth.Storage.Clients
use sharp_oauth.Storage.Conn.{M, pure, on_pool, ◌>>=◌, ◌>>◌}
use sharp_oauth.OAuth.Client.Details.{ClientDetails, RegistrationError, database, validate_details}

unfoldable pub is_confidential : OAuthClient → Bool
is_confidential client = is_some client.client_secret_hash

unfoldable pub is_active : OAuthClient → Bool
is_active client = is_none client.disabled_at

-- Exact matching.
unfoldable pub has_redirect_uri : OAuthClient → String → Bool
has_redirect_uri client redirect_uri =
    any (λ registered. registered == redirect_uri) client.redirect_uris

unfoldable pub allowed_scopes : OAuthClient → ScopeSet
allowed_scopes client = from_iter client.allowed_scopes

pub record NewClient : Type 0 where
  pub name : String
  pub redirect_uris : List String
  pub scopes : ScopeSet
  pub confidential : Bool
  pub owner_user_id : Option Uuid

pub record RegisteredClient : Type 0 where
  pub client : OAuthClient
  pub client_secret : Option String

-- What a registration draws: the clock, a primary key, the bytes of the secret and of the id.
pub record ClientDraw : Type 0 where
  pub now : Time
  pub id : Uuid
  pub secret_bytes : Bytes
  pub id_bytes : Bytes

unfoldable pub new_client_secret : Platform → Bytes → String
new_client_secret p bytes = String.◌++◌ "sharp_secret_" (generate_token p bytes)

abbrev pub hashed : Platform → Option String → Option String
hashed p none = none
hashed p (some secret) = some (hash_token p secret)

-- The row that `register` inserts.
abbrev pub new_row : Platform → NewClient → ClientDetails → Option String → ClientDraw → OAuthClient
new_row p new details client_secret draw = record {
  id = draw.id;
  client_id = String.◌++◌ "sharp_client_" (take_codes 24 (generate_token p draw.id_bytes));
  client_secret_hash = hashed p client_secret;
  name = details.name;
  redirect_uris = details.redirect_uris;
  allowed_scopes = details.scopes;
  created_at = draw.now;
  updated_at = draw.now;
  disabled_at = none;
  owner_user_id = new.owner_user_id;
}

unfoldable pub register : Platform → NewClient → ClientDraw → M RegistrationError RegisteredClient
register p new draw = do
  details ←
      validate_details p
        (record { name = new.name; redirect_uris = new.redirect_uris; scopes = new.scopes })
  let client_secret =
      if new.confidential then some (new_client_secret p draw.secret_bytes) else none
  let client = new_row p new details client_secret draw
  on_pool database (Clients.insert client)
  pure (record { client = client; client_secret = client_secret })

unfoldable pub update_details :
    Platform → OAuthClient → ClientDetails → Time → M RegistrationError (Unit {0})
update_details p client chosen now = do
  details ← validate_details p chosen
  on_pool database
      (Clients.update_details client.id details.name details.redirect_uris details.scopes now)
  pure tt

unfoldable pub rotate_secret : Platform → OAuthClient → Bytes → Time → M DbErr (Option String)
rotate_secret p client bytes now = if not (is_confidential client) then pure none else do
  let secret = new_client_secret p bytes
  on_pool (λ e. e) (Clients.update_secret_hash client.id (hash_token p secret) now)
  pure (some secret)

unfoldable pub delete : OAuthClient → M DbErr (Unit {0})
delete client = do on_pool (λ e. e) (Clients.delete client.id); pure tt
