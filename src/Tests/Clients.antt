-- ===== src/Tests/Clients.antt =====
-- Runs of client authentication and of the validation of a client's details.
use sharp_oauth.Prelude.{
  ◌≡◌, ◌↔◌, ◌⊎◌, ◌||◌, refl, Bool, true, false, String, Option, none, some, List, [], ◌∷◌, Result,
  ok, err, mem,
}
use sharp_oauth.Prelude.Rows.{In}
use sharp_oauth.Storage.{OAuthClient}
use sharp_oauth.Storage.Conn.{Conn}
use sharp_oauth.Storage.Clients
use sharp_oauth.OAuth.Params.{Params}
use sharp_oauth.OAuth.Client.Credentials.{ClientCredentials, authenticate, extract_credentials}
use sharp_oauth.OAuth.Client.Credentials.Admission.{IsProven, authenticate-IsProven}
use sharp_oauth.OAuth.Client.Details.{
  ClientDetails, dedup, validate_details, validate_redirect_uri_for_registration,
}
use sharp_oauth.OAuth.Client.Details.Uris.{
  IsAcceptable, IsRegistrable, validate_redirect_uri_iff, validate_details-IsRegistrable,
}
use sharp_oauth.Tests.World.{
  client, platform, tables, serving, approval, text_z, platform-ComparesTexts,
}

abbrev confidential : OAuthClient
confidential = record client { client_secret_hash = some text_z }

abbrev conn : Conn
conn = serving (record (tables [] [] (approval ∷ [])) {
  clients = confidential ∷ [];
  scopes = (record { name = "openid"; description = "" }) ∷ [];
})

abbrev credentials : ClientCredentials
credentials = record { client_id = "client"; client_secret = some "secret" }

admits :
    authenticate platform credentials conn
    ≡ (ok confidential, (authenticate platform credentials conn).1)
unfolding sharp_oauth.OAuth.Client.Credentials.authenticate
    sharp_oauth.OAuth.Client.Credentials.secret_matches sharp_oauth.OAuth.Client.Registry.is_active
    sharp_oauth.Secret.hash_token sharp_oauth.Secret.constant_time_eq
    sharp_oauth.Storage.Clients.find_by_client_id sharp_oauth.Storage.Conn.◌>>=◌
    sharp_oauth.Prelude.find
admits = refl

authenticate-IsProven_example :
    In confidential conn.db.clients
    × (confidential.client_id ≡ credentials.client_id)
    × (confidential.disabled_at ≡ none)
    × IsProven platform confidential (some "secret")
    × ((authenticate platform credentials conn).1.db ≡ conn.db)
authenticate-IsProven_example =
    authenticate-IsProven platform credentials conn (authenticate platform credentials conn).1
      confidential platform-ComparesTexts admits

abbrev body : Params
body = record { entries = ("client_id", "client") ∷ ("client_secret", "secret") ∷ [] }

extracts : extract_credentials platform none body ≡ ok credentials
unfolding sharp_oauth.OAuth.Params.get sharp_oauth.OAuth.Client.Credentials.extract_credentials
    sharp_oauth.OAuth.Client.Credentials.basic_credentials
extracts = refl

validate_redirect_uri_iff_example :
    (validate_redirect_uri_for_registration platform "https://app.example/cb" ≡ ok tt)
    ↔ IsAcceptable platform "https://app.example/cb"
validate_redirect_uri_iff_example = validate_redirect_uri_iff platform "https://app.example/cb"

abbrev details : ClientDetails
details = record {
  name = "App";
  redirect_uris = "https://app.example/cb" ∷ "https://app.example/cb" ∷ [];
  scopes = "openid" ∷ [];
}

abbrev normal : ClientDetails
normal = record details { redirect_uris = "https://app.example/cb" ∷ [] }

validates :
    validate_details platform details conn ≡ (ok normal, (validate_details platform details conn).1)
unfolding sharp_oauth.OAuth.Client.Details.validate_details
    sharp_oauth.OAuth.Client.Details.validate_redirect_uri_for_registration
    sharp_oauth.OAuth.Client.Details.dedup sharp_oauth.OAuth.Client.Details.check_uris
    sharp_oauth.Storage.Scopes.find_by_names sharp_oauth.Storage.Scopes.by_name
    sharp_oauth.Storage.Scopes.insert_by_name sharp_oauth.Storage.Conn.◌>>=◌
    sharp_oauth.Prelude.filter sharp_oauth.Prelude.any sharp_oauth.Prelude.is_empty
validates = refl

validate_details-IsRegistrable_example : IsRegistrable platform normal
validate_details-IsRegistrable_example =
    validate_details-IsRegistrable platform details normal conn
      (validate_details platform details conn).1 validates
