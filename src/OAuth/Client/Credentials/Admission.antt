-- ===== src/OAuth/Client/Credentials/Admission.antt =====
-- Which requests pass as a client.
use sharp_oauth.Prelude.{
  ◌≡◌, ◌↔◌, ◌⊎◌, refl, sym, ap, ◌∙◌, true, String, Option, none, some, Result, ok, arith,
  Option-cases, Result-cases, inl, inr, find, ◌==◌, eq_iff,
}
use sharp_oauth.Prelude.Rows.{In, find-In, find-passes}
use sharp_oauth.Error.{DbErr}
use sharp_oauth.Platform.{Platform, ComparesTexts}
use sharp_oauth.Secret.{hash_token, constant_time_eq}
use sharp_oauth.Storage.{Db, OAuthClient}
use sharp_oauth.Storage.Clients.{find_by_client_id}
use sharp_oauth.Storage.Conn.{Conn}
use sharp_oauth.Storage.Conn.Steps.{after_pool, lift-ok}
use sharp_oauth.OAuth.Params.{Params, get}
use sharp_oauth.OAuth.Client.Registry.{is_confidential, is_active}
use sharp_oauth.OAuth.Client.Credentials.{
  ClientCredentials, secret_matches, authenticate, basic_credentials, extract_credentials,
}

-- A public client shows no secret, a confidential one shows the secret whose hash is stored.
abbrev pub IsProven : Platform → OAuthClient → Option String → Type 0
IsProven p client none = client.client_secret_hash ≡ none
IsProven p client (some secret) = client.client_secret_hash ≡ some (hash_token p secret)

pub secret_matches_iff :
    (p : Platform) (client : OAuthClient) (presented : Option String)
    → ComparesTexts p
    → (secret_matches p client presented ≡ true) ↔ IsProven p client presented
unfolding secret_matches is_confidential constant_time_eq
secret_matches_iff p client none compares = ground arith
secret_matches_iff p client (some secret) compares = elim (Option-cases client.client_secret_hash) [
  | inl public ↦ ground arith
  | inr (stored, confidential) ↦ (
    λ h. confidential ∙ ap some (sym ((compares (hash_token p secret) stored).0 (ground arith))),
    λ h. rw h ((compares (hash_token p secret) (hash_token p secret)).1 refl),
  )
]

-- Whoever passes as a client is an active client of the tables, with the id given, and has shown
-- its secret if it has one and none otherwise. No table changes.
pub authenticate-IsProven :
    (p : Platform) (credentials : ClientCredentials) (c c' : Conn) (client : OAuthClient)
    → ComparesTexts p
    → authenticate p credentials c ≡ (ok client, c')
    → In client c.db.clients
      × (client.client_id ≡ credentials.client_id)
      × (client.disabled_at ≡ none)
      × IsProven p client credentials.client_secret
      × (c'.db ≡ c.db)
unfolding authenticate find_by_client_id is_active
authenticate-IsProven p credentials c c' client compares h =
    after_pool _ c _ _ h λ found c₁ run rest.
      let (admitted, same) = lift-ok _ c₁ rest in
      elim (Option-cases found) [
        | inl unknown ↦ absurd (ground arith)
        | inr (row, is_row) ↦
            let hit : find (λ (row : OAuthClient). row.client_id == credentials.client_id)
                  c.db.clients
                ≡ some row =
              ground (arith, run, is_row) in
            let is_client : row ≡ client = ground arith in
            let matches : secret_matches p row credentials.client_secret ≡ true = ground arith in
            (
              rw (← is_client) (find-In _ _ row hit),
              rw (← is_client)
                  ((eq_iff row.client_id credentials.client_id).0 (find-passes _ _ row hit)),
              ground arith,
              rw (← is_client)
                  ((secret_matches_iff p row credentials.client_secret compares).0 matches),
              ap (λ (x : Conn). x.db) (sym same)
                  ∙ ap (λ (o : Result DbErr (Option OAuthClient) × Db). o.1) (sym run),
            )
      ]

-- Where accepted credentials come from: the header alone, or the body alone.
abbrev pub FromHeader : Platform → Option String → Params → ClientCredentials → Type 0
FromHeader p header params credentials =
    (id : String) × (secret : String) × (basic_credentials p header ≡ ok (some (id, secret)))
    × (credentials.client_id ≡ id)
    × (credentials.client_secret ≡ some secret)
    × (get params "client_secret" ≡ none)

abbrev pub FromBody : Platform → Option String → Params → ClientCredentials → Type 0
FromBody p header params credentials =
    (basic_credentials p header ≡ ok none)
    × (get params "client_id" ≡ some credentials.client_id)
    × (get params "client_secret" ≡ credentials.client_secret)

-- Accepted credentials come from one method only: a `Basic` header and a secret in the body are
-- never mixed.
extract_credentials_one_method :
    (p : Platform) (header : Option String) (params : Params) (credentials : ClientCredentials)
    → extract_credentials p header params ≡ ok credentials
    → FromHeader p header params credentials ⊎ FromBody p header params credentials
unfolding extract_credentials
extract_credentials_one_method p header params credentials h =
    elim (Result-cases (basic_credentials p header)) [
      | inr (e, refused) ↦ absurd (ground arith)
      | inl (basic, read) ↦ elim (Option-cases basic) [
        | inl without ↦ inr (read ∙ ap ok without, ground arith, ground arith)
        | inr (pair, is_pair) ↦
            inl (pair.0, pair.1, read ∙ ap ok is_pair, ground arith, ground arith, ground arith)
      ]
    ]
