-- ===== src/Web/Portal/Touches.antt =====
-- What the statements on one application leave of the rows of all others.
use sharp_oauth.Prelude.{
  ◌≡◌, refl, ap, ap₂, ◌∙◌, Bool, true, not, ◌&&◌, String, none, List, [], ◌∷◌, map, eqb, any,
  is_some_and, filter, update_where, Bool-cases, inl, inr,
}
use sharp_oauth.Storage.{Uuid, Time, Db, OAuthClient, AuthorizationCode, Consent, RefreshToken}
use sharp_oauth.Storage.Clients
use sharp_oauth.Storage.Clients.{unlink, unlink_all}
use sharp_oauth.Storage.Conn.Preserve.{Safe}

-- A refresh token up to the link to its code, which the deletion of a code clears.
abbrev pub without_code : RefreshToken → RefreshToken
without_code row = record row { authorization_code_id = none }

-- The two states of the tables differ at most in the client of this id and in the codes, consents
-- and refresh tokens of that client, and in cleared links from refresh tokens to codes.
pub record Touches (id : Uuid) (d d' : Db) : Type 0 where
  pub users : d'.users ≡ d.users
  pub sessions : d'.sessions ≡ d.sessions
  pub scopes : d'.scopes ≡ d.scopes
  pub clients :
      filter (λ (row : OAuthClient). not (eqb row.id id)) d'.clients
      ≡ filter (λ (row : OAuthClient). not (eqb row.id id)) d.clients
  pub codes :
      filter (λ (row : AuthorizationCode). not (eqb row.client_id id)) d'.codes
      ≡ filter (λ (row : AuthorizationCode). not (eqb row.client_id id)) d.codes
  pub consents :
      filter (λ (row : Consent). not (eqb row.client_id id)) d'.consents
      ≡ filter (λ (row : Consent). not (eqb row.client_id id)) d.consents
  pub refresh_tokens :
      map without_code
        (filter (λ (row : RefreshToken). not (eqb row.client_id id)) d'.refresh_tokens)
      ≡ map without_code
          (filter (λ (row : RefreshToken). not (eqb row.client_id id)) d.refresh_tokens)

pub Touches-refl : (id : Uuid) (d : Db) → Touches id d d
Touches-refl id d = record {
  users = refl;
  sessions = refl;
  scopes = refl;
  clients = refl;
  codes = refl;
  consents = refl;
  refresh_tokens = refl;
}

filter-update_where :
    {A : Type 0} (q : A → Bool) (f : A → A) (xs : List A)
    → ((a : A) → q (f a) ≡ q a)
    → filter (λ a. not (q a)) (update_where q f xs) ≡ filter (λ a. not (q a)) xs
unfolding filter update_where
filter-update_where q f [] same = refl
filter-update_where q f (x ∷ xs) same =
    let rest = filter-update_where q f xs same in
    elim (Bool-cases (q x)) [
      | inl hit ↦ let still : q (f x) ≡ true = same x ∙ hit in rw (hit, still, rest) refl
      | inr miss ↦ rw (miss, miss, rest) refl
    ]

filter_twice : {A : Type 0} (p : A → Bool) (xs : List A) → filter p (filter p xs) ≡ filter p xs
unfolding filter
filter_twice p [] = refl
filter_twice p (x ∷ xs) = elim (Bool-cases (p x)) [
  | inl stays ↦ rw (stays, stays, filter_twice p xs) refl
  | inr goes ↦ rw (goes, filter_twice p xs) refl
]

unlink-client :
    (codes : List AuthorizationCode) (id : Uuid) (row : RefreshToken)
    → ((unlink codes id row).client_id ≡ row.client_id)
      × (without_code (unlink codes id row) ≡ without_code row)
unfolding unlink
unlink-client codes id row =
    elim (Bool-cases (
      is_some_and row.authorization_code_id
        (λ code_id. any (λ code. eqb code.id code_id && eqb code.client_id id) codes))) [
          | inl linked ↦ rw linked (refl, refl)
          | inr free ↦ rw free (refl, refl)
        ]

filter-unlink_all :
    (codes : List AuthorizationCode) (id : Uuid) (rows : List RefreshToken)
    → map without_code (filter (λ row. not (eqb row.client_id id)) (unlink_all codes id rows))
      ≡ map without_code (filter (λ row. not (eqb row.client_id id)) rows)
unfolding unlink_all filter unlink
filter-unlink_all codes id [] = refl
filter-unlink_all codes id (row ∷ rows) =
    let (client, same) = unlink-client codes id row in
    let rest = filter-unlink_all codes id rows in
    elim (Bool-cases (eqb row.client_id id)) [
      | inl hit ↦ rw (client, hit, rest) refl
      | inr miss ↦
          rw (client, miss)
            (ap₂ (λ (a : RefreshToken) (others : List RefreshToken). a ∷ others) same rest)
    ]

module _ (id : Uuid) (d₀ : Db) where
  pub update_details-Touches :
      (name : String) (uris scopes : List String) (now : Time)
      → Safe (Touches id d₀) (Clients.update_details id name uris scopes now)
  unfolding Clients.update_details
  update_details-Touches name uris scopes now d h = record {
    users = h.users;
    sessions = h.sessions;
    scopes = h.scopes;
    clients =
        filter-update_where (λ (row : OAuthClient). eqb row.id id) _ d.clients (λ row. refl)
        ∙ h.clients;
    codes = h.codes;
    consents = h.consents;
    refresh_tokens = h.refresh_tokens;
  }

  pub update_secret_hash-Touches :
      (hash : String) (now : Time) → Safe (Touches id d₀) (Clients.update_secret_hash id hash now)
  unfolding Clients.update_secret_hash
  update_secret_hash-Touches hash now d h = record {
    users = h.users;
    sessions = h.sessions;
    scopes = h.scopes;
    clients =
        filter-update_where (λ (row : OAuthClient). eqb row.id id) _ d.clients (λ row. refl)
        ∙ h.clients;
    codes = h.codes;
    consents = h.consents;
    refresh_tokens = h.refresh_tokens;
  }

  pub delete-Touches : Safe (Touches id d₀) (Clients.delete id)
  unfolding Clients.delete
  delete-Touches d h = record {
    users = h.users;
    sessions = h.sessions;
    scopes = h.scopes;
    clients = filter_twice _ d.clients ∙ h.clients;
    codes = filter_twice _ d.codes ∙ h.codes;
    consents = filter_twice _ d.consents ∙ h.consents;
    refresh_tokens =
        filter-unlink_all d.codes id _
        ∙ ap (map without_code) (filter_twice _ d.refresh_tokens)
        ∙ h.refresh_tokens;
  }
