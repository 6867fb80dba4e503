-- ===== src/Storage.antt =====
-- The database: the rows of the SeaORM models, the tables, and the statements of the `repo`
-- modules (its children). A statement gives its result or a database error, and the new tables.
pub mod Conn
pub mod Codes
pub mod RefreshTokens
pub mod Clients
pub mod Consents
pub mod Sessions
pub mod Users
pub mod Scopes
use sharp_oauth.Prelude.{ℕ, Bool, String, Option, List, Result, ok, err, if◌then◌else◌}
use sharp_oauth.Error.{DbErr, unique_violation}

-- A `Uuid`, as the number that its 128 bits spell.
abbrev pub Uuid : Type 0
Uuid = ℕ

-- A `DateTime<Utc>`, in nanoseconds since the epoch.
abbrev pub Time : Type 0
Time = ℕ

abbrev pub second : ℕ
second = 1_000_000_000

-- src/shared/database/secret_hash.rs: a hash, kept apart from other texts in logs only.
abbrev pub SecretHash : Type 0
SecretHash = String

-- src/authentication/models/users.rs
pub record User : Type 0 where
  pub id : Uuid
  pub email : String
  pub password_hash : SecretHash
  pub display_name : Option String
  pub email_verified : Bool
  pub created_at : Time
  pub updated_at : Time

-- src/authentication/models/user_sessions.rs
pub record Session : Type 0 where
  pub id : Uuid
  pub user_id : Uuid
  pub session_token_hash : SecretHash
  pub expires_at : Time
  pub created_at : Time
  pub revoked_at : Option Time

-- src/oauth/models/oauth_clients.rs
pub record OAuthClient : Type 0 where
  pub id : Uuid
  pub client_id : String
  pub client_secret_hash : Option SecretHash
  pub name : String
  pub redirect_uris : List String
  pub allowed_scopes : List String
  pub created_at : Time
  pub updated_at : Time
  pub disabled_at : Option Time
  pub owner_user_id : Option Uuid

-- src/oauth/models/oauth_authorization_codes.rs
pub record AuthorizationCode : Type 0 where
  pub id : Uuid
  pub code_hash : SecretHash
  pub client_id : Uuid
  pub user_id : Uuid
  pub redirect_uri : String
  pub scope : String
  pub code_challenge : String
  pub code_challenge_method : String
  pub nonce : Option String
  pub auth_time : Time
  pub expires_at : Time
  pub created_at : Time
  pub used_at : Option Time

-- src/oauth/models/oauth_consents.rs
pub record Consent : Type 0 where
  pub id : Uuid
  pub user_id : Uuid
  pub client_id : Uuid
  pub scopes : List String
  pub created_at : Time
  pub updated_at : Time
  pub revoked_at : Option Time

-- src/token/models/oauth_refresh_tokens.rs
pub record RefreshToken : Type 0 where
  pub id : Uuid
  pub token_hash : SecretHash
  pub family_id : Uuid
  pub authorization_code_id : Option Uuid
  pub client_id : Uuid
  pub user_id : Uuid
  pub scope : String
  pub auth_time : Time
  pub expires_at : Time
  pub created_at : Time
  pub revoked_at : Option Time
  pub rotated_to_id : Option Uuid

-- src/oauth/models/oauth_scopes.rs
pub record ScopeDescription : Type 0 where
  pub name : String
  pub description : String

pub record Db : Type 0 where
  pub users : List User
  pub sessions : List Session
  pub clients : List OAuthClient
  pub codes : List AuthorizationCode
  pub consents : List Consent
  pub refresh_tokens : List RefreshToken
  pub scopes : List ScopeDescription

abbrev pub Stmt : Type 0 → Type 0
Stmt A = Db → Result DbErr A × Db

-- A query that changes nothing.
abbrev pub select : {A : Type 0} → (Db → A) → Stmt A
select f d = (ok (f d), d)

-- An insert that a uniqueness constraint may refuse.
abbrev pub insert_unless : Bool → Db → Db → Result DbErr (Unit {0}) × Db
insert_unless clash d d' = if clash then (err unique_violation, d) else (ok tt, d')
