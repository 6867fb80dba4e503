-- ===== src/Tests/Bearers.antt =====
-- A platform that reads back the tokens it signs, and a run of the userinfo endpoint on it.
use sharp_oauth.Prelude.{
  ℕ, zero, suc, Bool, true, false, ◌&&◌, String, Option, none, some, List, [], ◌∷◌, Result, ◌==◌,
  eqb, if◌then◌else◌, Bool-cases, inl, inr,
}
use sharp_oauth.Platform.{
  Platform, AccessTokenClaims, Header, Claims, access, id, Algorithm, rs256, other_algorithm,
}
use sharp_oauth.State.{AppState}
use sharp_oauth.Keys.{SigningKey}
use sharp_oauth.Tests.World.{app, platform}

-- A UUID in unary.
unary : ℕ → String
unary zero = ""
unary (suc n) = String.◌∷◌ "a" (unary n)

read_unary : String → ℕ
read_unary String.[] = zero
read_unary (String.◌∷◌ c s) = suc (read_unary s)

-- The one access token of this run: for user 20, issued at 10 seconds.
abbrev bearer : AccessTokenClaims
bearer = record {
  iss = "https://id.example";
  sub = "aaaaaaaaaaaaaaaaaaaa";
  aud = "https://id.example";
  exp = 910;
  iat = 10;
  jti = "a";
  client_id = "client";
  scope = "openid";
  auth_time = 5;
}

abbrev is_bearer : AccessTokenClaims → Bool
is_bearer c =
    c.iss == bearer.iss
    && (c.sub == bearer.sub
        && (c.aud == bearer.aud
            && (c.jti == bearer.jti
                && (c.client_id == bearer.client_id
                    && (c.scope == bearer.scope
                        && (eqb c.exp bearer.exp
                            && (eqb c.iat bearer.iat && eqb c.auth_time bearer.auth_time)))))))

abbrev head : Header
head = record { alg = rs256; typ = some "at+jwt"; kid = some "k" }

abbrev is_text : Option String → String → Bool
is_text none t = false
is_text (some s) t = s == t

abbrev is_rs256 : Algorithm → Bool
is_rs256 rs256 = true
is_rs256 other_algorithm = false

abbrev is_head : Header → Bool
is_head h = is_rs256 h.alg && (is_text h.typ "at+jwt" && is_text h.kid "k")

-- Only the bearer token is signed.
abbrev signed : Header → Claims → ℕ → Option String
signed h (access c) encoding = if is_head h && is_bearer c then some "jwt" else none
signed h (id c) encoding = none

abbrev reading : Platform
reading = record platform {
  uuid_to_string = unary;
  parse_uuid = λ s. some (read_unary s);
  encode_jwt = signed;
  decode_header = λ token. some head;
  decode_access = λ token key validation now. some bearer;
}

abbrev reading_app : AppState
reading_app = record app { platform = reading }

abbrev key : SigningKey
key = record { kid = "k"; encoding = 1; decoding = 1; public_jwk = 1 }
