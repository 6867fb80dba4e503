-- ===== src/Tests/World.antt =====
-- A platform, a configuration, tables and requests for the runs.
use Prim.Native.Char.{code}
use Prim.Native.String.{[], ◌∷◌}
use sharp_oauth.Prelude.{
  ℕ, ◌*◌, true, false, String, none, some, List, [], ◌∷◌, ◌==◌, eqb, is_empty, if◌then◌else◌,
  eq_iff,
}
use sharp_oauth.Platform.{Platform, Bytes, Url, domain, ComparesTexts}
use sharp_oauth.State.{AppState}
use sharp_oauth.Storage.{
  second, User, Session, OAuthClient, AuthorizationCode, Consent, RefreshToken, Db,
}
use sharp_oauth.Storage.Conn.{Conn}
use sharp_oauth.OAuth.Params.{Params}
use sharp_oauth.OAuth.Token.Response.{TokenDraw}
use sharp_oauth.OAuth.Authorization.Request.{AuthorizationRequest}
use sharp_oauth.OAuth.Authorization.Decision.{AuthorizationDraw}
use sharp_oauth.Web.Accounts.{PageDraw}

-- 43 characters for each first byte.
abbrev pub text_a : String
text_a = "AAAAAAAAAAAAAAAAAAAAAAAAAAAAAAAAAAAAAAAAAAA"

abbrev pub text_b : String
text_b = "BBBBBBBBBBBBBBBBBBBBBBBBBBBBBBBBBBBBBBBBBBB"

abbrev pub text_z : String
text_z = "ZZZZZZZZZZZZZZZZZZZZZZZZZZZZZZZZZZZZZZZZZZZ"

abbrev pub first_byte : String → Bytes
first_byte [] = []
first_byte (c ∷ _) = code c ∷ []

abbrev pub text_of : Bytes → String
text_of [] = ""
text_of (b ∷ _) = if eqb b b'A' then text_a else if eqb b b'B' then text_b else text_z

abbrev pub https_url : String → Url
https_url text = record {
  scheme = "https";
  username = "";
  password = none;
  host = some (domain "app.example");
  query = none;
  fragment = none;
  text = text;
}

abbrev pub platform : Platform
platform = record {
  sha256 = first_byte;
  base64url = text_of;
  ct_eq = λ a b. a == b;
  decode_base64 = λ s. some (first_byte s);
  from_utf8 = λ bytes. some "client:secret";
  trim = λ s. s;
  to_lowercase = λ s. s;
  is_whitespace = λ c. eqb c 32;
  is_control = λ c. false;
  parse_url = λ s. if is_empty s then none else some (https_url s);
  extend_query = λ url pairs. url.text;
  encode_query = λ pairs. "query";
  form_first_value = λ s. some s;
  uuid_to_string = λ u. "uuid";
  parse_uuid = λ s. some 1;
  hash_password = λ salt password. some password;
  verify_password = λ password hash. some (password == hash);
  encoding_from_pem = λ pem. some 1;
  jwk_from_encoding = λ k. some k;
  decoding_from_jwk = λ k. some k;
  encode_jwt = λ header claims key. some "jwt";
  decode_header = λ token. none;
  decode_access = λ token key validation now. none;
}

pub platform-ComparesTexts : ComparesTexts platform
platform-ComparesTexts a b = eq_iff a b

abbrev pub app : AppState
app = record {
  platform = platform;
  config = record { issuer = "https://id.example" };
  signing_keys = record {
    keys = record { kid = "k"; encoding = 1; decoding = 1; public_jwk = 1 } ∷ [];
    active = 0;
  };
}

abbrev pub client : OAuthClient
client = record {
  id = 10;
  client_id = "client";
  client_secret_hash = none;
  name = "App";
  redirect_uris = "https://app.example/cb" ∷ [];
  allowed_scopes = "offline_access" ∷ "openid" ∷ [];
  created_at = 0;
  updated_at = 0;
  disabled_at = none;
  owner_user_id = none;
}

abbrev pub user : User
user = record {
  id = 20;
  email = "a@b.example";
  password_hash = "pw";
  display_name = none;
  email_verified = true;
  created_at = 0;
  updated_at = 0;
}

abbrev pub session : Session
session = record {
  id = 30;
  user_id = 20;
  session_token_hash = "s";
  expires_at = 1_000 * second;
  created_at = 5 * second;
  revoked_at = none;
}

-- A code whose raw form is `text_a`, for a verifier that starts with `Z`.
abbrev pub fresh_code : AuthorizationCode
fresh_code = record {
  id = 40;
  code_hash = text_a;
  client_id = 10;
  user_id = 20;
  redirect_uri = "https://app.example/cb";
  scope = "offline_access openid";
  code_challenge = text_z;
  code_challenge_method = "S256";
  nonce = none;
  auth_time = 5 * second;
  expires_at = 70 * second;
  created_at = 10 * second;
  used_at = none;
}

abbrev pub used_code : AuthorizationCode
used_code = record fresh_code { used_at = some (11 * second) }

abbrev pub token_a : RefreshToken
token_a = record {
  id = 50;
  token_hash = text_a;
  family_id = 60;
  authorization_code_id = some 40;
  client_id = 10;
  user_id = 20;
  scope = "offline_access openid";
  auth_time = 5 * second;
  expires_at = 1_000 * second;
  created_at = 11 * second;
  revoked_at = none;
  rotated_to_id = none;
}

abbrev pub rotated_a : RefreshToken
rotated_a = record token_a { rotated_to_id = some 51 }

abbrev pub token_b : RefreshToken
token_b = record token_a { id = 51; token_hash = text_b }

abbrev pub approval : Consent
approval = record {
  id = 70;
  user_id = 20;
  client_id = 10;
  scopes = "openid" ∷ [];
  created_at = 0;
  updated_at = 0;
  revoked_at = none;
}

abbrev pub tables : List AuthorizationCode → List RefreshToken → List Consent → Db
tables codes refresh_tokens consents = record {
  users = user ∷ [];
  sessions = session ∷ [];
  clients = client ∷ [];
  codes = codes;
  consents = consents;
  refresh_tokens = refresh_tokens;
  scopes = [];
}

abbrev pub serving : Db → Conn
serving d = record { db = d; tx = d; calls = 0; fails = λ n. false }

-- A database that fails at one call.
abbrev pub failing_at : ℕ → Db → Conn
failing_at call d = record { db = d; tx = d; calls = 0; fails = λ n. eqb n call }

abbrev pub draw : TokenDraw
draw = record { now = 20 * second; jti = 1; family_id = 61; token_id = 52; token_bytes = b'B' ∷ [] }

abbrev pub code_params : Params
code_params = record {
  entries =
      ("code", text_a)
      ∷ ("redirect_uri", "https://app.example/cb")
      ∷ ("code_verifier", text_z)
      ∷ [];
}

abbrev pub wrong_verifier : Params
wrong_verifier = record {
  entries =
      ("code", text_a)
      ∷ ("redirect_uri", "https://app.example/cb")
      ∷ ("code_verifier", text_b)
      ∷ [];
}

abbrev pub refresh_params : Params
refresh_params = record { entries = ("refresh_token", text_a) ∷ ("scope", "openid") ∷ [] }

abbrev pub request : AuthorizationRequest
request = record {
  client_id = some "client";
  redirect_uri = some "https://app.example/cb";
  response_type = some "code";
  response_mode = none;
  scope = some "openid";
  state = some "xyz";
  code_challenge = some text_z;
  code_challenge_method = some "S256";
  nonce = none;
  prompt = none;
  max_age = some "60";
  has_request_object = false;
  has_request_uri = false;
}

abbrev pub authorization_draw : AuthorizationDraw
authorization_draw = record {
  now = 20 * second;
  granted_at = 20 * second;
  issued_at = 20 * second;
  consent_id = 71;
  code_id = 41;
  code_bytes = b'B' ∷ [];
}

abbrev pub page_draw : PageDraw
page_draw = record {
  now = 20 * second;
  created_at = 20 * second;
  csrf_bytes = b'B' ∷ [];
  session_id = 31;
  session_bytes = b'B' ∷ [];
  user_id = 21;
  signed_up_at = 20 * second;
  salt = [];
}
