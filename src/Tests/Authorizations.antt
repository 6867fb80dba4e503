-- ===== src/Tests/Authorizations.antt =====
-- Runs of the authorization endpoint.
use sharp_oauth.Prelude.{
  ◌≡◌, refl, Bool, true, false, String, Option, none, some, List, [], ◌∷◌, Result, ok, err,
}
use sharp_oauth.Storage.{Db, User, Session, OAuthClient}
use sharp_oauth.Storage.Conn.{Conn}
use sharp_oauth.OAuth.Authorization.Prompt.{default}
use sharp_oauth.OAuth.Authorization.Request.{AuthorizationRequest}
use sharp_oauth.OAuth.Authorization.Validation.{ValidatedRequest, ErrorRedirect, redirect, validate}
use sharp_oauth.OAuth.Authorization.Validation.Redirects.{IsRegistered, validate-redirect}
use sharp_oauth.OAuth.Authorization.Validation.Success.{IsSound, validate-IsSound}
use sharp_oauth.Tests.World.{client, request, tables, serving, approval, text_z}

abbrev pub conn : Conn
conn = serving (tables [] [] (approval ∷ []))

-- A request with the wrong flow goes back to the client.
abbrev implicit : AuthorizationRequest
implicit = record request { response_type = some "token" }

abbrev refusal : ErrorRedirect
refusal = record {
  redirect_uri = "https://app.example/cb";
  state = some "xyz";
  error = "unsupported_response_type";
  description = "only response_type=code is supported";
}

refuses : validate implicit conn ≡ (err (redirect refusal), (validate implicit conn).1)
unfolding sharp_oauth.OAuth.Authorization.Validation.validate
    sharp_oauth.OAuth.Authorization.Validation.check_protocol
    sharp_oauth.OAuth.Authorization.Validation.check_response
    sharp_oauth.OAuth.Authorization.Validation.fail sharp_oauth.OAuth.Client.Registry.is_active
    sharp_oauth.OAuth.Client.Registry.has_redirect_uri sharp_oauth.Storage.Clients.find_by_client_id
    sharp_oauth.Storage.Conn.◌>>=◌ sharp_oauth.Prelude.find sharp_oauth.Prelude.any
refuses = refl

validate-redirect_example :
    (client : OAuthClient) × (client_id : String) × (implicit.client_id ≡ some client_id)
    × (implicit.redirect_uri ≡ some refusal.redirect_uri)
    × IsRegistered conn.db client client_id refusal.redirect_uri
    × (refusal.state ≡ implicit.state)
validate-redirect_example =
    validate-redirect implicit conn (validate implicit conn).1 refusal refuses

abbrev pub valid : ValidatedRequest
valid = record {
  client = client;
  redirect_uri = "https://app.example/cb";
  scope = "openid" ∷ [];
  state = "xyz";
  code_challenge = text_z;
  nonce = none;
  prompt = default;
  max_age = some 60;
}

validates : validate request conn ≡ (ok valid, (validate request conn).1)
unfolding sharp_oauth.OAuth.Authorization.Validation.validate
    sharp_oauth.OAuth.Authorization.Validation.check_protocol
    sharp_oauth.OAuth.Authorization.Validation.check_response
    sharp_oauth.OAuth.Authorization.Validation.check_state
    sharp_oauth.OAuth.Authorization.Validation.check_scope
    sharp_oauth.OAuth.Authorization.Validation.check_code_challenge
    sharp_oauth.OAuth.Authorization.Validation.parse_u32
    sharp_oauth.OAuth.Authorization.Validation.read_digits
    sharp_oauth.OAuth.Authorization.Prompt.parse sharp_oauth.OAuth.Authorization.Prompt.add_values
    sharp_oauth.OAuth.Authorization.Prompt.reject_combined
    sharp_oauth.OAuth.Client.Registry.is_active sharp_oauth.OAuth.Client.Registry.has_redirect_uri
    sharp_oauth.OAuth.Client.Registry.allowed_scopes sharp_oauth.OAuth.Pkce.is_valid_s256_challenge
    sharp_oauth.Storage.Clients.find_by_client_id sharp_oauth.Storage.Conn.◌>>=◌
    sharp_oauth.Scope.parse sharp_oauth.Scope.from_iter sharp_oauth.Scope.is_subset_of
    sharp_oauth.Prelude.find sharp_oauth.Prelude.any
validates = refl

validate-IsSound_example :
    IsRegistered conn.db client "client" "https://app.example/cb"
    × (request.client_id ≡ some "client")
    × (request.redirect_uri ≡ some "https://app.example/cb")
    × IsSound request valid
    × ((validate request conn).1.db ≡ conn.db)
validate-IsSound_example = validate-IsSound request conn (validate request conn).1 valid validates
