-- ===== src/Storage/Clients.antt =====
-- src/oauth/repo/clients.rs, and what the foreign keys of the migrations do on a delete.
use sharp_oauth.Prelude.{
  ℕ, Bool, not, ◌&&◌, ◌||◌, String, Option, none, some, List, [], ◌∷◌, ◌++◌, ok, ◌==◌, eqb, ltb,
  is_some_and, find, filter, any, update_where, length, if◌then◌else◌,
}
use sharp_oauth.Storage.{
  Uuid, Time, SecretHash, Stmt, OAuthClient, AuthorizationCode, RefreshToken, select, insert_unless,
}

-- The primary key and the unique `client_id`.
abbrev pub clashes : OAuthClient → OAuthClient → Bool
clashes client row = eqb row.id client.id || row.client_id == client.client_id

unfoldable pub insert : OAuthClient → Stmt (Unit {0})
insert client d =
    insert_unless (any (clashes client) d.clients) d
      (record d { clients = d.clients ++ client ∷ [] })

unfoldable pub find_by_client_id : String → Stmt (Option OAuthClient)
find_by_client_id client_id = select (λ d. find (λ row. row.client_id == client_id) d.clients)

abbrev pub is_owned_by : Uuid → OAuthClient → Bool
is_owned_by owner row = is_some_and row.owner_user_id (λ id. eqb id owner)

-- A row goes before the first one that is not newer.
unfoldable pub insert_newest : OAuthClient → List OAuthClient → List OAuthClient
insert_newest row [] = row ∷ []
insert_newest row (r ∷ rows) =
    if ltb row.created_at r.created_at then r ∷ insert_newest row rows else row ∷ r ∷ rows

-- `ORDER BY created_at DESC`.
unfoldable pub newest_first : List OAuthClient → List OAuthClient
newest_first [] = []
newest_first (r ∷ rows) = insert_newest r (newest_first rows)

unfoldable pub list_by_owner : Uuid → Stmt (List OAuthClient)
list_by_owner owner = select (λ d. newest_first (filter (is_owned_by owner) d.clients))

unfoldable pub count_by_owner : Uuid → Stmt ℕ
count_by_owner owner = select (λ d. length (filter (is_owned_by owner) d.clients))

unfoldable pub find_owned : Uuid → String → Stmt (Option OAuthClient)
find_owned owner client_id =
    select (λ d. find (λ row. row.client_id == client_id && is_owned_by owner row) d.clients)

unfoldable pub update_details : Uuid → String → List String → List String → Time → Stmt (Unit {0})
update_details id name redirect_uris allowed_scopes now d = (
  ok tt,
  record d {
    clients =
        update_where (λ row. eqb row.id id)
          (λ row. record row {
            name = name;
            redirect_uris = redirect_uris;
            allowed_scopes = allowed_scopes;
            updated_at = now;
          })
          d.clients;
  },
)

unfoldable pub update_secret_hash : Uuid → SecretHash → Time → Stmt (Unit {0})
update_secret_hash id secret_hash now d = (
  ok tt,
  record d {
    clients =
        update_where (λ row. eqb row.id id)
          (λ row. record row { client_secret_hash = some secret_hash; updated_at = now }) d.clients;
  },
)

-- A code of the client goes with it; `ON DELETE SET NULL` clears the references to such a code.
unfoldable pub unlink : List AuthorizationCode → Uuid → RefreshToken → RefreshToken
unlink codes client row =
    if is_some_and row.authorization_code_id
      (λ id. any (λ code. eqb code.id id && eqb code.client_id client) codes)
    then record row { authorization_code_id = none }
    else row

unfoldable pub unlink_all : List AuthorizationCode → Uuid → List RefreshToken → List RefreshToken
unlink_all codes client [] = []
unlink_all codes client (row ∷ rows) = unlink codes client row ∷ unlink_all codes client rows

-- The foreign keys cascade the delete to the client's codes, consents and refresh tokens.
unfoldable pub delete : Uuid → Stmt (Unit {0})
delete id d = (
  ok tt,
  record d {
    clients = filter (λ row. not (eqb row.id id)) d.clients;
    codes = filter (λ row. not (eqb row.client_id id)) d.codes;
    consents = filter (λ row. not (eqb row.client_id id)) d.consents;
    refresh_tokens =
        unlink_all d.codes id (filter (λ row. not (eqb row.client_id id)) d.refresh_tokens);
  },
)
