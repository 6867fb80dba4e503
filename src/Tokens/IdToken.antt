-- ===== src/Tokens/IdToken.antt =====
-- src/oidc/services/id_token.rs: ID tokens.
use sharp_oauth.Prelude.{ℕ, ◌+◌, ◌*◌, ◌/◌, String, Option}
use sharp_oauth.Platform.{Platform, IdTokenClaims, id}
use sharp_oauth.Storage.{Uuid, Time, second}
use sharp_oauth.Keys.{SigningKeys, sign}

abbrev pub id_token_ttl : ℕ
id_token_ttl = 900 * second

abbrev pub jwt_type : String
jwt_type = "JWT"

unfoldable pub new : Platform → String → Uuid → String → Time → Option String → Time → IdTokenClaims
new p issuer user_id client_id auth_time nonce now = record {
  iss = issuer;
  sub = p.uuid_to_string user_id;
  aud = client_id;
  exp = (now + id_token_ttl) / second;
  iat = now / second;
  auth_time = auth_time / second;
  nonce = nonce;
}

unfoldable pub issue : Platform → SigningKeys → IdTokenClaims → Option String
issue p keys claims = sign p keys jwt_type (id claims)
