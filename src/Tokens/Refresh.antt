-- ===== src/Tokens/Refresh.antt =====
-- src/token/services/refresh.rs: refresh tokens, what makes one usable, and how one is issued.
pub mod Issue
use sharp_oauth.Prelude.{
  ℕ, ◌+◌, ◌*◌, ◌<◌, ◌≡◌, ◌↔◌, not, String, Option, none, Result, ok, err, arith, eqb, leb, is_some,
  if◌then◌else◌,
}
use sharp_oauth.Error.{DbErr}
use sharp_oauth.Platform.{Platform, Bytes}
use sharp_oauth.Secret.{generate_token, hash_token}
use sharp_oauth.Storage.{Uuid, Time, second, RefreshToken}
use sharp_oauth.Storage.RefreshTokens
use sharp_oauth.Storage.Conn.{M, pure, on_tx, ◌>>=◌, ◌>>◌}

abbrev pub refresh_token_ttl : ℕ
refresh_token_ttl = 30 * 86_400 * second

pub data Unusable : Type 0 where
  wrong_client revoked already_rotated expired : Unusable

unfoldable pub check_usable : RefreshToken → Uuid → Time → Result Unusable (Unit {0})
check_usable token client_id now =
    if not (eqb token.client_id client_id)
    then err wrong_client
    else if is_some token.revoked_at
    then err revoked
    else if is_some token.rotated_to_id
    then err already_rotated
    else if leb token.expires_at now
    then err expired
    else ok tt

pub record NewRefreshToken : Type 0 where
  pub family_id : Uuid
  pub authorization_code_id : Option Uuid
  pub client_id : Uuid
  pub user_id : Uuid
  pub scope : String
  pub auth_time : Time

-- The row that `issue` inserts; `bytes` and `id` are drawn.
unfoldable pub new_row : Platform → NewRefreshToken → Bytes → Uuid → Time → RefreshToken
new_row p new bytes id now = record {
  id = id;
  token_hash = hash_token p (generate_token p bytes);
  family_id = new.family_id;
  authorization_code_id = new.authorization_code_id;
  client_id = new.client_id;
  user_id = new.user_id;
  scope = new.scope;
  auth_time = new.auth_time;
  expires_at = now + refresh_token_ttl;
  created_at = now;
  revoked_at = none;
  rotated_to_id = none;
}

-- In the caller's transaction: the raw token, and the row.
unfoldable pub issue :
    {E : Type 0}
    → (DbErr → E)
    → Platform
    → NewRefreshToken
    → Bytes
    → Uuid
    → Time
    → M E (String × RefreshToken)
issue f p new bytes id now = do
  on_tx f (RefreshTokens.insert (new_row p new bytes id now))
  pure (generate_token p bytes, new_row p new bytes id now)

-- A token is usable exactly by its own client, before it is revoked, rotated or expired.
pub check_usable_iff :
    (token : RefreshToken) (client_id : Uuid) (now : Time)
    → (check_usable token client_id now ≡ ok tt) ↔ (
        (token.client_id ≡ client_id)
        × (token.revoked_at ≡ none)
        × (token.rotated_to_id ≡ none)
        × (now < token.expires_at))
unfolding check_usable
check_usable_iff token client_id now = ground arith
