-- ===== src/Storage/RefreshTokens.antt =====
-- src/token/repo/refresh_tokens.rs
pub mod Revocation
use sharp_oauth.Prelude.{
  ℕ, zero, suc, Bool, ◌&&◌, ◌||◌, false, String, Option, none, some, List, [], ◌∷◌, ◌++◌, ok, ◌==◌,
  eqb, is_none, is_some_and, find, filter, any, update_where, length,
}
use sharp_oauth.Storage.{Uuid, Time, Db, Stmt, RefreshToken, select, insert_unless}

-- The primary key and the unique `token_hash`.
abbrev pub clashes : RefreshToken → RefreshToken → Bool
clashes token row = eqb row.id token.id || row.token_hash == token.token_hash

unfoldable pub insert : RefreshToken → Stmt (Unit {0})
insert token d =
    insert_unless (any (clashes token) d.refresh_tokens) d
      (record d { refresh_tokens = d.refresh_tokens ++ token ∷ [] })

unfoldable pub find_by_hash : String → Stmt (Option RefreshToken)
find_by_hash token_hash = select (λ d. find (λ row. row.token_hash == token_hash) d.refresh_tokens)

-- `SELECT … FOR UPDATE`: the row lock delays other transactions and reads the same row.
unfoldable pub find_by_hash_for_update : String → Stmt (Option RefreshToken)
find_by_hash_for_update token_hash =
    select (λ d. find (λ row. row.token_hash == token_hash) d.refresh_tokens)

abbrev pub rotate_to : Uuid → RefreshToken → RefreshToken
rotate_to rotated_to_id row = record row { rotated_to_id = some rotated_to_id }

unfoldable pub mark_rotated : Uuid → Uuid → Stmt (Unit {0})
mark_rotated id rotated_to_id d = (
  ok tt,
  record d {
    refresh_tokens = update_where (λ row. eqb row.id id) (rotate_to rotated_to_id) d.refresh_tokens;
  },
)

abbrev pub revoke_at : Time → RefreshToken → RefreshToken
revoke_at now row = record row { revoked_at = some now }

-- `UPDATE … SET revoked_at WHERE … AND revoked_at IS NULL`, with `rows_affected`.
unfoldable pub revoke_rows : (RefreshToken → Bool) → Time → Stmt ℕ
revoke_rows chosen now d = (
  ok (length (filter (λ row. chosen row && is_none row.revoked_at) d.refresh_tokens)),
  record d {
    refresh_tokens =
        update_where (λ row. chosen row && is_none row.revoked_at) (revoke_at now) d.refresh_tokens;
  },
)

unfoldable pub revoke_family : Uuid → Time → Stmt ℕ
revoke_family family_id = revoke_rows (λ row. eqb row.family_id family_id)

-- `family_id IN (SELECT family_id … WHERE authorization_code_id = …)`.
unfoldable pub descends_from : Uuid → List RefreshToken → RefreshToken → Bool
descends_from authorization_code_id rows row =
    any
      (λ other.
        is_some_and other.authorization_code_id (λ id. eqb id authorization_code_id)
        && eqb other.family_id row.family_id)
      rows

unfoldable pub revoke_by_authorization_code : Uuid → Time → Stmt ℕ
revoke_by_authorization_code authorization_code_id now d =
    revoke_rows (descends_from authorization_code_id d.refresh_tokens) now d
