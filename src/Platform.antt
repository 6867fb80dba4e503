-- ===== src/Platform.antt =====
-- What the server takes from outside the repository: cryptography, the url, base64 and
-- jsonwebtoken crates, Argon2 and the Unicode tables of the standard library. They are functions
-- of a record that every definition takes; what a theorem relies on is a hypothesis of it.
use sharp_oauth.Prelude.{ℕ, ◌≡◌, ◌↔◌, Bool, true, String, Option, List}
use sharp_oauth.Storage.{Uuid, Time}

abbrev pub Bytes : Type 0
Bytes = List ℕ

-- `url::Host`; addresses as the numbers that their bits spell.
pub data Host : Type 0 where
  domain : String → Host
  ipv4 ipv6 : ℕ → Host

-- The parts of `url::Url` that the code reads.
pub record Url : Type 0 where
  pub scheme : String
  pub username : String
  pub password : Option String
  pub host : Option Host
  pub query : Option String
  pub fragment : Option String
  pub text : String

-- src/token/services/access.rs
pub record AccessTokenClaims : Type 0 where
  pub iss : String
  pub sub : String
  pub aud : String
  pub exp : ℕ
  pub iat : ℕ
  pub jti : String
  pub client_id : String
  pub scope : String
  pub auth_time : ℕ

-- src/oidc/services/id_token.rs
pub record IdTokenClaims : Type 0 where
  pub iss : String
  pub sub : String
  pub aud : String
  pub exp : ℕ
  pub iat : ℕ
  pub auth_time : ℕ
  pub nonce : Option String

-- What `SigningKeys::sign` is called with.
pub data Claims : Type 0 where
  access : AccessTokenClaims → Claims
  id : IdTokenClaims → Claims

pub data Algorithm : Type 0 where
  rs256 other_algorithm : Algorithm

-- The fields of `jsonwebtoken::Header` and `Validation` that the code sets or reads.
pub record Header : Type 0 where
  pub alg : Algorithm
  pub typ : Option String
  pub kid : Option String

pub record Validation : Type 0 where
  pub algorithms : List Algorithm
  pub issuer : String
  pub audience : String
  pub required : List String
  pub leeway : ℕ

-- Keys are handles; what they hold is the crates' business.
pub record Platform : Type 0 where
  -- sha2, base64, subtle, and the UTF-8 check of the standard library
  pub sha256 : String → Bytes
  pub base64url : Bytes → String
  pub ct_eq : String → String → Bool
  pub decode_base64 : String → Option Bytes
  pub from_utf8 : Bytes → Option String
  -- Unicode: `trim`, `to_lowercase`, `is_whitespace`, `is_control`
  pub trim : String → String
  pub to_lowercase : String → String
  pub is_whitespace : ℕ → Bool
  pub is_control : ℕ → Bool
  -- url
  pub parse_url : String → Option Url
  pub extend_query : Url → List (String × String) → String
  pub encode_query : List (String × String) → String
  pub form_first_value : String → Option String
  -- uuid
  pub uuid_to_string : Uuid → String
  pub parse_uuid : String → Option Uuid
  -- argon2: the salt, then the password
  pub hash_password : Bytes → String → Option String
  pub verify_password : String → String → Option Bool
  -- jsonwebtoken
  pub encoding_from_pem : Bytes → Option ℕ
  pub jwk_from_encoding : ℕ → Option ℕ
  pub decoding_from_jwk : ℕ → Option ℕ
  pub encode_jwt : Header → Claims → ℕ → Option String
  pub decode_header : String → Option Header
  pub decode_access : String → ℕ → Validation → Time → Option AccessTokenClaims

-- `subtle`'s comparison answers as `==` does.
abbrev pub ComparesTexts : Platform → Type 0
ComparesTexts p = (a b : String) → (p.ct_eq a b ≡ true) ↔ (a ≡ b)
