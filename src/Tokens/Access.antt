-- ===== src/Tokens/Access.antt =====
-- src/token/services/access.rs: JWT access tokens.
pub mod RoundTrip
use sharp_oauth.Prelude.{ℕ, ◌+◌, ◌*◌, ◌/◌, String, Option, [], ◌∷◌, Result, ok, err}
use sharp_oauth.Platform.{Platform, AccessTokenClaims, access, rs256}
use sharp_oauth.Storage.{Uuid, Time, second}
use sharp_oauth.Scope.{ScopeSet, to_string, parse}
use sharp_oauth.Keys.{SigningKeys, sign}
use sharp_oauth.Keys.Verify
use sharp_oauth.Keys.Verify.{VerifyError}

abbrev pub access_token_ttl : ℕ
access_token_ttl = 900 * second

abbrev pub jwt_type : String
jwt_type = "at+jwt"

-- `jti` is the drawn `Uuid::now_v7()`.
unfoldable pub new :
    Platform → String → Uuid → String → ScopeSet → Time → Time → Uuid → AccessTokenClaims
new p issuer user_id client_id scope auth_time now jti = record {
  iss = issuer;
  sub = p.uuid_to_string user_id;
  aud = issuer;
  exp = (now + access_token_ttl) / second;
  iat = now / second;
  jti = p.uuid_to_string jti;
  client_id = client_id;
  scope = to_string scope;
  auth_time = auth_time / second;
}

-- `unwrap_or_default`.
unfoldable pub scopes : AccessTokenClaims → ScopeSet
scopes claims = elim (parse claims.scope) [ ok s ↦ s | err _ ↦ [] ]

unfoldable pub issue : Platform → SigningKeys → AccessTokenClaims → Option String
issue p keys claims = sign p keys jwt_type (access claims)

unfoldable pub verify :
    Platform → SigningKeys → String → String → Time → Result VerifyError AccessTokenClaims
verify p keys issuer token now =
    Verify.verify p keys token jwt_type
      (record {
        algorithms = rs256 ∷ [];
        issuer = issuer;
        audience = issuer;
        required = "exp" ∷ "iss" ∷ "aud" ∷ "sub" ∷ [];
        leeway = 0;
      })
      now
