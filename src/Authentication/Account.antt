-- ===== src/Authentication/Account.antt =====
-- src/authentication/services/user.rs: accounts. Argon2 is a parameter; the hash for unknown
-- addresses is drawn at start.
pub mod SignIn
use sharp_oauth.Prelude.{
  ℕ, Bool, true, false, not, ◌&&◌, ◌||◌, String, len, count, Option, none, some, Result, ok, err,
  eqb, ltb, leb, ok_or, reject_if, keep_if, is_some_and, and_then, if◌then◌else◌, split_once,
  is_empty, any_code, starts_with_code, ends_with_code,
}
use sharp_oauth.Error.{AppError, DbErr, database, internal, unique_violation, failed}
use sharp_oauth.Platform.{Platform, Bytes}
use sharp_oauth.Storage.{Uuid, Time, User, Db}
use sharp_oauth.Storage.Users
use sharp_oauth.Storage.Users.{find_by_email}
use sharp_oauth.Storage.Conn.{M, pure, lift, on_pool, ◌>>=◌, ◌>>◌}

pub record NewAccount : Type 0 where
  pub email : String
  pub password : String
  pub display_name : Option String

pub data SignUpError : Type 0 where
  invalid_email invalid_password invalid_display_name email_taken : SignUpError
  internal_error : AppError → SignUpError

abbrev pub min_password_chars : ℕ
min_password_chars = 8

abbrev pub max_password_bytes : ℕ
max_password_bytes = 1024

abbrev pub max_display_name_chars : ℕ
max_display_name_chars = 100

abbrev valid_parts : Platform → String → String × String → Bool
valid_parts p email (local, domain) =
    (not (is_empty local) && any_code (λ c. eqb c b'.') domain)
    && ((not (starts_with_code b'.' domain) && not (ends_with_code b'.' domain))
        && ((not (any_code (λ c. eqb c b'@') domain) && leb (len email) 254)
            && not (any_code (λ c. p.is_whitespace c || p.is_control c) email)))

unfoldable pub normalize_email : Platform → String → Option String
normalize_email p raw =
    let email = p.to_lowercase (p.trim raw) in
    and_then (split_once b'@' email) λ parts. if valid_parts p email parts then some email else none

abbrev trimmed : Platform → Option String → Option String
trimmed p none = none
trimmed p (some name) = some (p.trim name)

-- `map(trim)`, then `filter`: a blank name counts as none.
abbrev pub shown_name : Platform → Option String → Option String
shown_name p name = keep_if (λ n. not (is_empty n)) (trimmed p name)

abbrev pub refused : DbErr → SignUpError
refused unique_violation = email_taken
refused failed = internal_error (database failed)

-- The row that `sign_up` inserts.
abbrev pub new_user : String → String → Option String → Uuid → Time → User
new_user email password_hash display_name id now = record {
  id = id;
  email = email;
  password_hash = password_hash;
  display_name = display_name;
  email_verified = false;
  created_at = now;
  updated_at = now;
}

-- `salt`, `id` and `now` are drawn.
unfoldable pub sign_up : Platform → NewAccount → Bytes → Uuid → Time → M SignUpError User
sign_up p account salt id now = do
  email ← lift (ok_or invalid_email (normalize_email p account.email))
  lift (
      reject_if
        (ltb (count account.password) min_password_chars
          || ltb max_password_bytes (len account.password))
        invalid_password)
  let display_name = shown_name p account.display_name
  lift (
      reject_if (is_some_and display_name (λ name. ltb max_display_name_chars (count name)))
        invalid_display_name)
  password_hash ← lift (ok_or (internal_error internal) (p.hash_password salt account.password))
  on_pool refused (Users.insert (new_user email password_hash display_name id now))
  pure (new_user email password_hash display_name id now)

-- The address that is looked up, if it is one.
unfoldable pub find_user : Option String → M AppError (Option User)
find_user none = pure none
find_user (some email) = on_pool database (find_by_email email)

abbrev pub hash_of : String → Option User → String
hash_of dummy none = dummy
hash_of dummy (some user) = user.password_hash

unfoldable pub authenticate : Platform → String → String → String → M AppError (Option User)
authenticate p dummy email password = do
  user ← find_user (normalize_email p email)
  password_ok ← lift (ok_or internal (p.verify_password password (hash_of dummy user)))
  pure (keep_if (λ _. password_ok) user)
