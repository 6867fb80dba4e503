-- ===== src/Authentication/Browser.antt =====
-- src/authentication/services/session.rs: browser sessions. The cookie holds the raw token, the
-- table its hash.
pub mod Lifetime
use sharp_oauth.Prelude.{ℕ, ◌+◌, ◌*◌, String, Option, none, some}
use sharp_oauth.Error.{AppError, database}
use sharp_oauth.Platform.{Platform, Bytes}
use sharp_oauth.Secret.{generate_token, hash_token}
use sharp_oauth.Storage.{Uuid, Time, second, User, Session}
use sharp_oauth.Storage.Sessions
use sharp_oauth.Storage.Sessions.{find_active_by_hash, revoke_by_hash}
use sharp_oauth.Storage.Users.{find_by_id}
use sharp_oauth.Storage.Conn.{M, pure, on_pool, ◌>>=◌, ◌>>◌}

abbrev pub session_ttl : ℕ
session_ttl = 7 * 86_400 * second

-- The row that `create` inserts; `bytes`, `id` and `now` are drawn.
unfoldable pub new_session : Platform → User → Bytes → Uuid → Time → Session
new_session p user bytes id now = record {
  id = id;
  user_id = user.id;
  session_token_hash = hash_token p (generate_token p bytes);
  expires_at = now + session_ttl;
  created_at = now;
  revoked_at = none;
}

unfoldable pub create : Platform → User → Bytes → Uuid → Time → M AppError (String × Session)
create p user bytes id now = do
  on_pool database (Sessions.insert (new_session p user bytes id now))
  pure (generate_token p bytes, new_session p user bytes id now)

abbrev pub with_session : Session → Option User → Option (Session × User)
with_session session none = none
with_session session (some user) = some (session, user)

-- The user of a session that was found.
unfoldable pub resolve : Option Session → M AppError (Option (Session × User))
resolve none = pure none
resolve (some session) = do
  user ← on_pool database (find_by_id session.user_id)
  pure (with_session session user)

unfoldable pub find_active : Platform → String → Time → M AppError (Option (Session × User))
find_active p token now = do
  session ← on_pool database (find_active_by_hash (hash_token p token) now)
  resolve session

unfoldable pub revoke : Platform → String → Time → M AppError (Unit {0})
revoke p token now = do on_pool database (revoke_by_hash (hash_token p token) now); pure tt
