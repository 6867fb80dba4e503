-- ===== src/OAuth/Token/Endpoint/Revocation.antt =====
-- What a revocation request does to the tables.
use sharp_oauth.Prelude.{
  ℕ, List, [], ◌∷◌, map, update_where, is_none, ◌&&◌, if◌then◌else◌, ◌≡◌, refl, sym, ap, ◌∙◌, ◌⊎◌,
  String, Option, none, some, Result, ok, arith, Bool-cases, inl, inr, Result-cases, find, ◌==◌,
  eqb, eq_iff,
}
use sharp_oauth.Prelude.Rows.{In, None, find-none, find-In, find-passes}
use sharp_oauth.Error.{AppError, DbErr}
use sharp_oauth.Platform.{ComparesTexts}
use sharp_oauth.Secret.{hash_token}
use sharp_oauth.Storage.{Db, Time, Uuid, OAuthClient, RefreshToken}
use sharp_oauth.Storage.Conn.{Conn, pure, throw}
use sharp_oauth.Storage.Conn.Steps.{>>=-ok, after_lift, after_or, after_pool}
use sharp_oauth.Storage.RefreshTokens.{find_by_hash, revoke_family, revoke_rows}
use sharp_oauth.State.{AppState}
use sharp_oauth.OAuth.Params.{Pairs, Params, from_pairs, get}
use sharp_oauth.OAuth.Client.Credentials.{ClientCredentials, extract_credentials, authenticate}
use sharp_oauth.OAuth.Client.Credentials.Admission.{IsProven, authenticate-IsProven}
use sharp_oauth.OAuth.Token.Endpoint.{read_params, revoke_found, handle_revocation}

revoke_found-ok :
    (client : OAuthClient) (now : Time) (found : Option RefreshToken) (c : Conn) {c' : Conn}
    → revoke_found client now found c ≡ (ok tt, c')
    → ((found ≡ none) × (c'.db ≡ c.db))
      ⊎ ((row : RefreshToken) × (found ≡ some row)
          × (row.client_id ≡ client.id)
          × (c'.db ≡ (revoke_family row.family_id now c.db).1))
unfolding revoke_found pure throw
revoke_found-ok client now none c h =
    inl (refl, ap (λ (o : Result AppError (Unit {0}) × Conn). o.1.db) (sym h))
revoke_found-ok client now (some row) c h = elim (Bool-cases (eqb row.client_id client.id)) [
  | inl own ↦ after_pool _ c _ _ (rw own at h) λ n c₁ run rest. inr (
    row,
    refl,
    ground arith,
    ap (λ (o : Result AppError (Unit {0}) × Conn). o.1.db) (sym rest)
        ∙ ap (λ (o : Result DbErr ℕ × Db). o.1) (sym run),
  )
  | inr foreign ↦ absurd (ground arith)
]

read_params-ok :
    (pairs : Pairs) (params : Params) → read_params pairs ≡ ok params → from_pairs pairs ≡ ok params
read_params-ok pairs params h = elim (Result-cases (from_pairs pairs)) [
  | inl (found, read) ↦ ground arith
  | inr (repeated, refused) ↦ absurd (ground arith)
]

-- The live tokens of the family end now, all other rows stay.
abbrev ended : Uuid → Time → RefreshToken → RefreshToken
ended family now row =
    if eqb row.family_id family && is_none row.revoked_at
    then record row { revoked_at = some now }
    else row

update_where-ended :
    (family : Uuid) (now : Time) (rows : List RefreshToken)
    → update_where
        (λ row. eqb row.family_id family && is_none row.revoked_at)
        (λ row. record row { revoked_at = some now })
        rows
      ≡ map (ended family now) rows
unfolding update_where
update_where-ended family now [] = refl
update_where-ended family now (row ∷ rows) =
    ap (λ (others : List RefreshToken). ended family now row ∷ others)
      (update_where-ended family now rows)

revoke_family-ended :
    (family : Uuid) (now : Time) (d : Db)
    → (revoke_family family now d).1
      ≡ record d { refresh_tokens = map (ended family now) d.refresh_tokens }
unfolding revoke_family revoke_rows
revoke_family-ended family now d =
    ap (λ (rows : List RefreshToken). record d { refresh_tokens = rows })
      (update_where-ended family now d.refresh_tokens)

-- What an answered revocation request has done. `token` is the parameter of that name, and the
-- client is the one whose credentials the request carries.
pub record Revocation (app : AppState) (header : Option String) (pairs : Pairs) (now : Time)
    (before after : Db) : Type 0 where
  pub params : Params
  pub credentials : ClientCredentials
  pub token : String
  pub client : OAuthClient
  pub read : from_pairs pairs ≡ ok params
  pub given : extract_credentials app.platform header params ≡ ok credentials
  pub named : get params "token" ≡ some token
  pub listed : In client before.clients
  pub is_client : client.client_id ≡ credentials.client_id
  pub active : client.disabled_at ≡ none
  pub proven : IsProven app.platform client credentials.client_secret
  pub outcome :
      (None
          (λ (row : RefreshToken). row.token_hash == hash_token app.platform token)
          before.refresh_tokens
        × (after ≡ before))
      ⊎ ((row : RefreshToken) × In row before.refresh_tokens
          × (row.token_hash ≡ hash_token app.platform token)
          × (row.client_id ≡ client.id)
          × (after ≡ record before {
            refresh_tokens = map (ended row.family_id now) before.refresh_tokens;
          }))

-- An answered revocation request comes from an active client that has proven its credentials. The
-- token in its `token` parameter is either unknown and nothing has changed, or it is a token of that
-- client and the live tokens of its family are revoked, and nothing else has changed.
pub handle_revocation-Revocation :
    (app : AppState) (header : Option String) (pairs : Pairs) (now : Time) (c c' : Conn)
    → ComparesTexts app.platform
    → handle_revocation app header pairs now c ≡ (ok tt, c')
    → Revocation app header pairs now c.db c'.db
unfolding handle_revocation find_by_hash
handle_revocation-Revocation app header pairs now c c' compares h =
    after_lift _ c _ h λ params read h₁. after_lift _ c _ h₁ λ credentials given h₂.
      let (client, c₁, admitted, h₃) = >>=-ok (authenticate app.platform credentials) _ c h₂ in
      let (listed, is_client, active, proven, kept) =
        authenticate-IsProven app.platform credentials c c₁ client compares admitted in
      after_or _ c₁ _ _ h₃ λ token named h₄. after_pool _ c₁ _ _ h₄ λ found c₂ run h₅.
        let same : c₂.db ≡ c.db =
          ap (λ (o : Result DbErr (Option RefreshToken) × Db). o.1) (sym run) ∙ kept in
        let result : find (λ (row : RefreshToken). row.token_hash == hash_token app.platform token)
              c₁.db.refresh_tokens
            ≡ found =
          ground (arith, run) in
        let looked = rw kept at result in
        record {
          params = params;
          credentials = credentials;
          token = token;
          client = client;
          read = read_params-ok pairs params read;
          given = given;
          named = named;
          listed = listed;
          is_client = is_client;
          active = active;
          proven = proven;
          outcome = elim (revoke_found-ok client now found c₂ h₅) [
            | inl (unknown, still) ↦ inl (find-none _ _ (looked ∙ unknown), still ∙ same)
            | inr (row, is_row, own, tables) ↦ inr (
              row,
              find-In _ _ row (looked ∙ is_row),
              (eq_iff row.token_hash (hash_token app.platform token)).0
                  (find-passes _ _ row (looked ∙ is_row)),
              own,
              tables
                  ∙ ap (λ (d : Db). (revoke_family row.family_id now d).1) same
                  ∙ revoke_family-ended row.family_id now c.db,
            )
          ];
        }
