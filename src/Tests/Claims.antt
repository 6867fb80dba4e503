-- ===== src/Tests/Claims.antt =====
-- Runs of the userinfo endpoint, and of a request that comes back from a sign-in.
use sharp_oauth.Prelude.{
  ℕ, ◌≡◌, ◌*◌, refl, Bool, true, false, String, Option, none, some, List, [], ◌∷◌, Result, ok, ltb,
}
use sharp_oauth.Platform.{AccessTokenClaims, rs256}
use sharp_oauth.State.{AppState}
use sharp_oauth.Storage.{User, Session, OAuthClient, second}
use sharp_oauth.Storage.Conn.{Conn}
use sharp_oauth.OAuth.Client.Registry.{RegisteredClient, ClientDraw}
use sharp_oauth.OAuth.Authorization.Prompt.{default}
use sharp_oauth.OAuth.Authorization.Request.{AuthorizationRequest, without_reauthentication}
use sharp_oauth.OAuth.Authorization.Validation.{ValidatedRequest, validate}
use sharp_oauth.OAuth.Authorization.Decision.{needs_reauthentication}
use sharp_oauth.OAuth.Authorization.SignInLoop.{signed_in_once}
use sharp_oauth.Oidc.{Object, text, boolean}
use sharp_oauth.Oidc.Userinfo.{userinfo}
use sharp_oauth.Oidc.Userinfo.Release.{Released, userinfo-Released}
use sharp_oauth.Tests.World.{app, client, session, request, text_z, platform}
use sharp_oauth.Tests.Pages.{conn}

abbrev bearer : AccessTokenClaims
bearer = record {
  iss = "https://id.example";
  sub = "uuid";
  aud = "https://id.example";
  exp = 900;
  iat = 0;
  jti = "uuid";
  client_id = "client";
  scope = "email openid";
  auth_time = 0;
}

-- A platform whose tokens all read as `bearer`.
abbrev reading : AppState
reading = record app {
  platform = record platform {
    parse_uuid = λ s. some 20;
    decode_header = λ token. some (record { alg = rs256; typ = some "at+jwt"; kid = some "k" });
    decode_access = λ token key validation now. some bearer;
  };
}

abbrev released : Object
released =
    ("sub", text "uuid") ∷ ("email", text "a@b.example") ∷ ("email_verified", boolean true) ∷ []

releases :
    userinfo reading "jwt" (20 * second) conn
    ≡ (ok released, (userinfo reading "jwt" (20 * second) conn).1)
unfolding sharp_oauth.Oidc.Userinfo.userinfo sharp_oauth.Oidc.Userinfo.claims_for
    sharp_oauth.Tokens.Access.verify sharp_oauth.Tokens.Access.scopes sharp_oauth.Keys.Verify.verify
    sharp_oauth.Prelude.eq_ignore_ascii_case sharp_oauth.Prelude.find sharp_oauth.Scope.parse
    sharp_oauth.Storage.Users.find_by_id sharp_oauth.Storage.Conn.◌>>=◌
releases = refl

userinfo-Released_example :
    Released reading conn.db "jwt" (20 * second) released
    × ((userinfo reading "jwt" (20 * second) conn).1.db ≡ conn.db)
userinfo-Released_example =
    userinfo-Released reading "jwt" (20 * second) conn (userinfo reading "jwt" (20 * second) conn).1
      released releases

-- A request that asks for a new sign-in.
abbrev insistent : AuthorizationRequest
insistent = record request { prompt = some "login consent"; max_age = some "0" }

abbrev calm : ValidatedRequest
calm = record {
  client = record client { owner_user_id = some 20 };
  redirect_uri = "https://app.example/cb";
  scope = "openid" ∷ [];
  state = "xyz";
  code_challenge = text_z;
  nonce = none;
  prompt = record default { consent = true };
  max_age = none;
}

comes_back :
    validate (without_reauthentication insistent) conn
    ≡ (ok calm, (validate (without_reauthentication insistent) conn).1)
unfolding sharp_oauth.OAuth.Authorization.Validation.validate
    sharp_oauth.OAuth.Authorization.Validation.check_protocol
    sharp_oauth.OAuth.Authorization.Validation.check_response
    sharp_oauth.OAuth.Authorization.Validation.check_state
    sharp_oauth.OAuth.Authorization.Validation.check_scope
    sharp_oauth.OAuth.Authorization.Validation.check_code_challenge
    sharp_oauth.OAuth.Authorization.Prompt.parse sharp_oauth.OAuth.Authorization.Prompt.add_values
    sharp_oauth.OAuth.Authorization.Prompt.add_value
    sharp_oauth.OAuth.Authorization.Prompt.reject_combined
    sharp_oauth.OAuth.Client.Registry.is_active sharp_oauth.OAuth.Client.Registry.has_redirect_uri
    sharp_oauth.OAuth.Client.Registry.allowed_scopes sharp_oauth.OAuth.Pkce.is_valid_s256_challenge
    sharp_oauth.Storage.Clients.find_by_client_id sharp_oauth.Storage.Conn.◌>>=◌
    sharp_oauth.Scope.parse sharp_oauth.Scope.from_iter sharp_oauth.Scope.is_subset_of
    sharp_oauth.Prelude.find sharp_oauth.Prelude.any
    sharp_oauth.OAuth.Authorization.Request.without_reauthentication
    sharp_oauth.OAuth.Authorization.Request.drop_login sharp_oauth.Prelude.join
comes_back = refl

signed_in_once_example : needs_reauthentication calm session (900 * second) ≡ false
signed_in_once_example =
    signed_in_once insistent calm session (900 * second) conn
      (validate (without_reauthentication insistent) conn).1 comes_back
