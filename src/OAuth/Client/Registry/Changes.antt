-- ===== src/OAuth/Client/Registry/Changes.antt =====
-- What registration, a new secret and deletion leave in the tables.
use sharp_oauth.Prelude.{
  ◌≡◌, refl, sym, ap, ◌∙◌, Bool, true, not, String, Option, none, some, List, [], ◌∷◌, ◌++◌, Result,
  ok, arith, Bool-cases, inl, inr, any, filter, eqb, ◌↔◌, ℕ, if◌then◌else◌, mem,
}
use sharp_oauth.Prelude.Rows.{In, None, In-update_where}
use sharp_oauth.Error.{DbErr}
use sharp_oauth.Platform.{Platform, Bytes, ComparesTexts}
use sharp_oauth.Secret.{hash_token}
use sharp_oauth.Storage.{Db, Time, OAuthClient, AuthorizationCode, RefreshToken, ScopeDescription}
use sharp_oauth.Storage.Clients
use sharp_oauth.Storage.Scopes.{find_by_names}
use sharp_oauth.Storage.Clients.{clashes, unlink, unlink_all}
use sharp_oauth.Storage.Conn.{Conn, pure}
use sharp_oauth.Storage.Conn.Steps.{>>=-ok, after_lift, after_pool}
use sharp_oauth.OAuth.Client.Details.{ClientDetails, RegistrationError, dedup, validate_details}
use sharp_oauth.OAuth.Client.Details.Uris.{IsRegistrable, dedup_lem, validate_details-IsRegistrable}
use sharp_oauth.OAuth.Client.Credentials.{secret_matches}
use sharp_oauth.OAuth.Client.Credentials.Admission.{secret_matches_iff}
use sharp_oauth.OAuth.Client.Registry.{
  NewClient, RegisteredClient, ClientDraw, is_confidential, hashed, new_row, new_client_secret,
  register, rotate_secret, delete,
}

-- What the row of a client says of it.
abbrev pub details_of : OAuthClient → ClientDetails
details_of client = record {
  name = client.name;
  redirect_uris = client.redirect_uris;
  scopes = client.allowed_scopes;
}

-- A client as it was registered.
pub record Registered (p : Platform) (new : NewClient) (before after : Db) (r : RegisteredClient)
    : Type 0 where
  pub registrable : IsRegistrable p (details_of r.client)
  pub name : r.client.name ≡ p.trim new.name
  pub uris : (uri : String) → mem uri r.client.redirect_uris ≡ mem uri new.redirect_uris
  pub scopes : r.client.allowed_scopes ≡ new.scopes
  pub active : r.client.disabled_at ≡ none
  pub owner : r.client.owner_user_id ≡ new.owner_user_id
  pub confidential : is_confidential r.client ≡ new.confidential
  pub usable : secret_matches p r.client r.client_secret ≡ true
  pub stored : after ≡ record before { clients = before.clients ++ r.client ∷ [] }

insert-clients :
    (client : OAuthClient) (d d' : Db)
    → Clients.insert client d ≡ (ok tt, d')
    → d' ≡ record d { clients = d.clients ++ client ∷ [] }
unfolding Clients.insert
insert-clients client d d' h = elim (Bool-cases (any (clashes client) d.clients)) [
  | inl clash ↦ absurd (ground arith)
  | inr free ↦ ground arith
]

-- The rows that one update of a secret leaves carry the new hash.
secret-update :
    (id : ℕ) (hash : String) (now : Time) (d : Db) (row : OAuthClient)
    → In row (Clients.update_secret_hash id hash now d).1.clients
    → row.id ≡ id
    → row.client_secret_hash ≡ some hash
unfolding Clients.update_secret_hash
secret-update id hash now d row listed same =
    let (old, _, e) =
      In-update_where (λ row. eqb row.id id)
        (λ row. record row { client_secret_hash = some hash; updated_at = now }) d.clients row
        listed in
    elim (Bool-cases (eqb old.id id)) [
      | inl hit ↦ ap (λ (x : OAuthClient). x.client_secret_hash) (rw hit at e)
      | inr miss ↦ absurd (ground (arith, ap (λ (x : OAuthClient). x.id) (rw miss at e)))
    ]

-- After a confidential client got a new secret, its row accepts a presented secret exactly when
-- the hash is that of the new one. A public client gets none.
pub rotate_secret_lem :
    (p : Platform) (client : OAuthClient) (bytes : Bytes) (now : Time) (c c' : Conn)
    (secret presented : String) (row : OAuthClient)
    → ComparesTexts p
    → rotate_secret p client bytes now c ≡ (ok (some secret), c')
    → In row c'.db.clients
    → row.id ≡ client.id
    → (is_confidential client ≡ true)
      × ((secret_matches p row (some presented) ≡ true)
          ↔ (hash_token p presented ≡ hash_token p secret))
unfolding rotate_secret pure
rotate_secret_lem p client bytes now c c' secret presented row compares h listed same =
    elim (Bool-cases (is_confidential client)) [
      | inr public ↦ absurd (ground arith)
      | inl confidential ↦ after_pool _ c _ _ (rw confidential at h) λ _ c₁ run fin.
          let is_secret : new_client_secret p bytes ≡ secret = ground (arith, fin) in
          let tables : c'.db
              ≡ (Clients.update_secret_hash client.id (hash_token p secret) now c.db).1 =
            ap (λ (o : Result DbErr (Option String) × Conn). o.1.db) (sym fin)
            ∙ ap (λ (o : Result DbErr (Unit {0}) × Db). o.1) (sym run)
            ∙ ap
                (λ (s : String). (Clients.update_secret_hash client.id (hash_token p s) now c.db).1)
                is_secret in
          let hash =
            secret-update client.id (hash_token p secret) now c.db row (rw tables at listed) same in
          let (to, from) = secret_matches_iff p row (some presented) compares in
          (
            confidential,
            (λ matches. cc (to matches, hash), λ equal. from (hash ∙ ap some (sym equal))),
          )
    ]

shown_secret :
    (p : Platform) (client : OAuthClient) (client_secret : Option String)
    → ComparesTexts p
    → client.client_secret_hash ≡ hashed p client_secret
    → secret_matches p client client_secret ≡ true
shown_secret p client none compares h = (secret_matches_iff p client none compares).1 h
shown_secret p client (some secret) compares h =
    (secret_matches_iff p client (some secret) compares).1 h

validate_details-kept :
    (p : Platform) (given details : ClientDetails) (c c' : Conn)
    → validate_details p given c ≡ (ok details, c')
    → (details ≡ record {
      name = p.trim given.name;
      redirect_uris = dedup [] given.redirect_uris;
      scopes = given.scopes;
    })
      × (c'.db ≡ c.db)
unfolding validate_details find_by_names pure
validate_details-kept p given details c c' h = after_lift _ c _ h λ _ _ h₁.
    after_lift _ c _ h₁ λ _ _ h₂. after_lift _ c _ h₂ λ _ _ h₃. after_lift _ c _ h₃ λ _ _ h₄.
      after_lift _ c _ h₄ λ _ _ h₅. after_lift _ c _ h₅ λ _ _ h₆.
        after_pool _ c _ _ h₆ λ known c₁ run h₇. after_lift _ c₁ _ h₇ λ _ _ fin. (
          ground (arith, fin),
          ap (λ (o : Result RegistrationError ClientDetails × Conn). o.1.db) (sym fin)
              ∙ ap (λ (o : Result DbErr (List ScopeDescription) × Db). o.1) (sym run),
        )

abbrev secret_for : Platform → NewClient → ClientDraw → Option String
secret_for p new draw =
    if new.confidential then some (new_client_secret p draw.secret_bytes) else none

abbrev made : Platform → NewClient → ClientDetails → ClientDraw → RegisteredClient
made p new details draw = record {
  client = new_row p new details (secret_for p new draw) draw;
  client_secret = secret_for p new draw;
}

made_confidential :
    (p : Platform) (new : NewClient) (details : ClientDetails) (draw : ClientDraw)
    → is_confidential (made p new details draw).client ≡ new.confidential
unfolding is_confidential
made_confidential p new details draw = ground arith

-- A successful registration stores one active client and changes nothing else. The client has the
-- requested name without the blanks around it, exactly the requested redirect URIs, none of them
-- twice, the requested scopes and owner, and it is confidential exactly when that was asked for; the
-- secret that is answered passes authentication.
pub register-Registered :
    (p : Platform) (new : NewClient) (draw : ClientDraw) (c c' : Conn) (r : RegisteredClient)
    → ComparesTexts p
    → register p new draw c ≡ (ok r, c')
    → Registered p new c.db c'.db r
unfolding register is_confidential pure
register-Registered p new draw c c' r compares h =
    let (details, c₁, valid, rest) = >>=-ok (validate_details p _) _ c h in
    let (normal, kept) = validate_details-kept p _ details c c₁ valid in
    after_pool _ c₁ _ _ rest λ _ c₂ run fin.
      let is_r : made p new details draw ≡ r = ground (arith, fin) in
      let grown = insert-clients _ c₁.db c₂.db run in
      let still = ap (λ (o : Result RegistrationError RegisteredClient × Conn). o.1.db) (sym fin) in
      rw (← is_r) (record {
        registrable = validate_details-IsRegistrable p _ details c c₁ valid;
        name = ap (λ (d : ClientDetails). d.name) normal;
        uris = λ uri.
            ap (λ (d : ClientDetails). mem uri d.redirect_uris) normal
            ∙ (dedup_lem [] new.redirect_uris tt).1 uri;
        scopes = ap (λ (d : ClientDetails). d.scopes) normal;
        active = refl;
        owner = refl;
        confidential = made_confidential p new details draw;
        usable =
            shown_secret p (made p new details draw).client (made p new details draw).client_secret
              compares refl;
        stored =
            still
            ∙ grown
            ∙ ap
                (λ (d : Db). record d {
                  clients = d.clients ++ (made p new details draw).client ∷ [];
                })
                kept;
      })

None-filter : {A : Type 0} (q : A → Bool) (xs : List A) → None q (filter (λ x. not (q x)) xs)
unfolding filter
None-filter q [] = tt
None-filter q (x ∷ xs) = elim (Bool-cases (q x)) [
  | inl hit ↦ rw hit (None-filter q xs)
  | inr miss ↦ rw miss (miss, None-filter q xs)
]

None-unlink_all :
    (codes : List AuthorizationCode) (id : ℕ) (rows : List RefreshToken)
    → None (λ row. eqb row.client_id id) rows
    → None (λ row. eqb row.client_id id) (unlink_all codes id rows)
unfolding unlink_all unlink
None-unlink_all codes id [] h = tt
None-unlink_all codes id (row ∷ rows) h = (ground (arith, h.0), None-unlink_all codes id rows h.1)

-- After a client was deleted, no row of it is left: neither the client, nor a code, a consent or a
-- refresh token of it.
pub delete_lem :
    (client : OAuthClient) (c c' : Conn)
    → delete client c ≡ (ok tt, c')
    → None (λ row. eqb row.id client.id) c'.db.clients
      × None (λ row. eqb row.client_id client.id) c'.db.codes
      × None (λ row. eqb row.client_id client.id) c'.db.consents
      × None (λ row. eqb row.client_id client.id) c'.db.refresh_tokens
unfolding delete Clients.delete pure
delete_lem client c c' h = after_pool _ c _ _ h λ _ c₁ run fin.
    let tables : c'.db ≡ (Clients.delete client.id c.db).1 =
      ap (λ (o : Result DbErr (Unit {0}) × Conn). o.1.db) (sym fin)
      ∙ ap (λ (o : Result DbErr (Unit {0}) × Db). o.1) (sym run) in
    rw tables (
      None-filter (λ row. eqb row.id client.id) c.db.clients,
      None-filter (λ row. eqb row.client_id client.id) c.db.codes,
      None-filter (λ row. eqb row.client_id client.id) c.db.consents,
      None-unlink_all c.db.codes client.id _
          (None-filter (λ row. eqb row.client_id client.id) c.db.refresh_tokens),
    )
