-- ===== src/Tests/Registrations.antt =====
-- Runs of the registration of a client, of a new secret and of a deletion.
use sharp_oauth.Prelude.{
  ◌≡◌, ◌↔◌, refl, Bool, true, String, Option, none, some, List, [], ◌∷◌, ok, eqb, inl, ◌*◌,
}
use sharp_oauth.Prelude.Rows.{In, None}
use sharp_oauth.Secret.{hash_token}
use sharp_oauth.Storage.{OAuthClient, AuthorizationCode, Consent, RefreshToken, second}
use sharp_oauth.Storage.Conn.{Conn}
use sharp_oauth.OAuth.Client.Credentials.{secret_matches}
use sharp_oauth.OAuth.Client.Registry.{
  NewClient, RegisteredClient, ClientDraw, is_confidential, register, rotate_secret, delete,
}
use sharp_oauth.OAuth.Client.Registry.Changes.{
  Registered, register-Registered, rotate_secret_lem, delete_lem,
}
use sharp_oauth.Tests.World.{
  client, platform, tables, serving, approval, fresh_code, token_a, text_z, platform-ComparesTexts,
}

abbrev confidential : OAuthClient
confidential = record client { client_secret_hash = some text_z }

abbrev conn : Conn
conn = serving (record (tables (fresh_code ∷ []) (token_a ∷ []) (approval ∷ [])) {
  clients = confidential ∷ [];
  scopes = (record { name = "openid"; description = "" }) ∷ [];
})

abbrev new : NewClient
new = record {
  name = "Other";
  redirect_uris = "https://other.example/cb" ∷ [];
  scopes = "openid" ∷ [];
  confidential = true;
  owner_user_id = some 20;
}

abbrev draw : ClientDraw
draw = record { now = 20 * second; id = 11; secret_bytes = b'B' ∷ []; id_bytes = b'A' ∷ [] }

abbrev registered : RegisteredClient
registered = record {
  client = record {
    id = 11;
    client_id = "sharp_client_AAAAAAAAAAAAAAAAAAAAAAAA";
    client_secret_hash = some text_z;
    name = "Other";
    redirect_uris = "https://other.example/cb" ∷ [];
    allowed_scopes = "openid" ∷ [];
    created_at = 20 * second;
    updated_at = 20 * second;
    disabled_at = none;
    owner_user_id = some 20;
  };
  client_secret = some "sharp_secret_BBBBBBBBBBBBBBBBBBBBBBBBBBBBBBBBBBBBBBBBBBB";
}

registers : register platform new draw conn ≡ (ok registered, (register platform new draw conn).1)
unfolding sharp_oauth.OAuth.Client.Details.validate_details
    sharp_oauth.OAuth.Client.Details.validate_redirect_uri_for_registration
    sharp_oauth.OAuth.Client.Details.dedup sharp_oauth.OAuth.Client.Details.check_uris
    sharp_oauth.Storage.Scopes.find_by_names sharp_oauth.Storage.Scopes.by_name
    sharp_oauth.Storage.Scopes.insert_by_name sharp_oauth.Storage.Conn.◌>>=◌
    sharp_oauth.Prelude.filter sharp_oauth.Prelude.any sharp_oauth.Prelude.is_empty
    sharp_oauth.OAuth.Client.Registry.register sharp_oauth.OAuth.Client.Registry.new_client_secret
    sharp_oauth.Storage.Clients.insert sharp_oauth.Secret.generate_token
    sharp_oauth.Secret.hash_token sharp_oauth.Prelude.take_codes
registers = refl

register-Registered_example :
    Registered platform new conn.db (register platform new draw conn).1.db registered
register-Registered_example =
    register-Registered platform new draw conn (register platform new draw conn).1 registered
      platform-ComparesTexts registers

abbrev rotated : Conn
rotated = (rotate_secret platform confidential (b'A' ∷ []) (20 * second) conn).1

abbrev new_secret : String
new_secret = "sharp_secret_AAAAAAAAAAAAAAAAAAAAAAAAAAAAAAAAAAAAAAAAAAA"

rotates :
    rotate_secret platform confidential (b'A' ∷ []) (20 * second) conn
    ≡ (ok (some new_secret), rotated)
unfolding sharp_oauth.Storage.Conn.◌>>=◌ sharp_oauth.OAuth.Client.Registry.rotate_secret
    sharp_oauth.OAuth.Client.Registry.is_confidential
    sharp_oauth.OAuth.Client.Registry.new_client_secret
    sharp_oauth.Storage.Clients.update_secret_hash sharp_oauth.Secret.generate_token
rotates = refl

abbrev changed : OAuthClient
changed = record confidential { updated_at = 20 * second }

listed : In changed rotated.db.clients
unfolding sharp_oauth.Storage.Conn.◌>>=◌ sharp_oauth.OAuth.Client.Registry.rotate_secret
    sharp_oauth.OAuth.Client.Registry.is_confidential
    sharp_oauth.OAuth.Client.Registry.new_client_secret
    sharp_oauth.Storage.Clients.update_secret_hash sharp_oauth.Secret.generate_token
    sharp_oauth.Secret.hash_token sharp_oauth.Prelude.update_where
listed = inl refl

rotate_secret_lem_example :
    (is_confidential confidential ≡ true)
    × ((secret_matches platform changed (some "guess") ≡ true)
        ↔ (hash_token platform "guess" ≡ hash_token platform new_secret))
rotate_secret_lem_example =
    rotate_secret_lem platform confidential (b'A' ∷ []) (20 * second) conn rotated new_secret
      "guess" changed platform-ComparesTexts rotates listed refl

abbrev deleted : Conn
deleted = (delete client conn).1

deletes : delete client conn ≡ (ok tt, deleted)
unfolding sharp_oauth.Storage.Conn.◌>>=◌ sharp_oauth.OAuth.Client.Registry.delete
    sharp_oauth.Storage.Clients.delete
deletes = refl

delete_lem_example :
    None (λ (row : OAuthClient). eqb row.id client.id) deleted.db.clients
    × None (λ (row : AuthorizationCode). eqb row.client_id client.id) deleted.db.codes
    × None (λ (row : Consent). eqb row.client_id client.id) deleted.db.consents
    × None (λ (row : RefreshToken). eqb row.client_id client.id) deleted.db.refresh_tokens
delete_lem_example = delete_lem client conn deleted deletes
