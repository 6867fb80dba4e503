-- ===== src/Storage/Codes.antt =====
-- src/oauth/repo/authorization_codes.rs
use sharp_oauth.Prelude.{
  Bool, ◌&&◌, ◌||◌, String, Option, none, some, List, [], ◌∷◌, ◌++◌, ok, ◌==◌, eqb, is_none, find,
  any, update_where,
}
use sharp_oauth.Storage.{Time, Stmt, AuthorizationCode, select, insert_unless}

-- The primary key and the unique `code_hash`.
abbrev pub clashes : AuthorizationCode → AuthorizationCode → Bool
clashes code row = eqb row.id code.id || row.code_hash == code.code_hash

unfoldable pub insert : AuthorizationCode → Stmt (Unit {0})
insert code d =
    insert_unless (any (clashes code) d.codes) d (record d { codes = d.codes ++ code ∷ [] })

-- The condition of `claim_statement`.
abbrev pub is_unused : String → AuthorizationCode → Bool
is_unused code_hash row = row.code_hash == code_hash && is_none row.used_at

abbrev pub use_at : Time → AuthorizationCode → AuthorizationCode
use_at now row = record row { used_at = some now }

-- `UPDATE … SET used_at WHERE code_hash = … AND used_at IS NULL`.
unfoldable pub claim_statement : String → Time → List AuthorizationCode → List AuthorizationCode
claim_statement code_hash now = update_where (is_unused code_hash) (use_at now)

abbrev pub returning : Time → Option AuthorizationCode → Option AuthorizationCode
returning now none = none
returning now (some row) = some (use_at now row)

-- The first updated row (`RETURNING *`), as it is after the update.
unfoldable pub claim : String → Time → Stmt (Option AuthorizationCode)
claim code_hash now d = (
  ok (returning now (find (is_unused code_hash) d.codes)),
  record d { codes = claim_statement code_hash now d.codes },
)

unfoldable pub find_by_hash : String → Stmt (Option AuthorizationCode)
find_by_hash code_hash = select (λ d. find (λ row. row.code_hash == code_hash) d.codes)
