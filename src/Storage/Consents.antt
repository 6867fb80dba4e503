-- ===== src/Storage/Consents.antt =====
-- src/oauth/repo/consents.rs
pub mod Upsert
use sharp_oauth.Prelude.{
  Bool, ◌&&◌, String, Option, none, some, List, [], ◌∷◌, ok, eqb, is_none, find, if◌then◌else◌,
}
use sharp_oauth.Storage.{Uuid, Time, Db, Stmt, Consent, select}

-- The unique pair of the table.
abbrev pub is_for : Uuid → Uuid → Consent → Bool
is_for user_id client_id row = eqb row.user_id user_id && eqb row.client_id client_id

abbrev pub scopes_of : Option Consent → Option (List String)
scopes_of none = none
scopes_of (some consent) = some consent.scopes

unfoldable pub find_active : Uuid → Uuid → Stmt (Option (List String))
find_active user_id client_id = select (λ d.
    scopes_of (find (λ row. is_for user_id client_id row && is_none row.revoked_at) d.consents))

-- `INSERT … ON CONFLICT (user_id, client_id) DO UPDATE`.
unfoldable pub upsert_row : Consent → List Consent → List Consent
upsert_row consent [] = consent ∷ []
upsert_row consent (row ∷ rows) =
    if is_for consent.user_id consent.client_id row
    then record row { scopes = consent.scopes; updated_at = consent.updated_at; revoked_at = none }
      ∷ rows
    else row ∷ upsert_row consent rows

-- `id` is the drawn `Uuid::now_v7()`, which no row is taken to have.
unfoldable pub upsert : Uuid → Uuid → Uuid → List String → Time → Stmt (Unit {0})
upsert id user_id client_id scopes now d = (
  ok tt,
  record d {
    consents =
        upsert_row
          (record {
            id = id;
            user_id = user_id;
            client_id = client_id;
            scopes = scopes;
            created_at = now;
            updated_at = now;
            revoked_at = none;
          })
          d.consents;
  },
)
