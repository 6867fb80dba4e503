-- ===== src/Server/DeadFamilies.antt =====
-- A family of refresh tokens that was revoked stays dead, whatever the server is asked afterwards.
use sharp_oauth.Prelude.{
  ℕ, Bool, ◌≡◌, ◌≢◌, refl, false, ◌&&◌, Bool-cases, inl, inr, String, Option, some, List, [], ◌∷◌,
  ok, arith, eqb, is_none,
}
use sharp_oauth.Prelude.Rows.{
  In, None, None-update_where, None-filter, none-append, None-In, all-None,
}
use sharp_oauth.Scope.{ScopeSet}
use sharp_oauth.Secret.{hash_token}
use sharp_oauth.Storage.{Uuid, Db, OAuthClient, AuthorizationCode, RefreshToken}
use sharp_oauth.Storage.Users
use sharp_oauth.Storage.Sessions
use sharp_oauth.Storage.Clients
use sharp_oauth.Storage.Clients.{unlink, unlink_all}
use sharp_oauth.Storage.Codes
use sharp_oauth.Storage.Consents
use sharp_oauth.Storage.RefreshTokens
use sharp_oauth.Storage.RefreshTokens.{rotate_to, revoke_at}
use sharp_oauth.Storage.Conn.{Conn}
use sharp_oauth.Storage.Conn.Preserve.{insert-Safe}
use sharp_oauth.State.{AppState}
use sharp_oauth.OAuth.Params.{Params, get}
use sharp_oauth.OAuth.Token.Response.{TokenResponse, TokenDraw}
use sharp_oauth.OAuth.Token.Rotation.{exchange_refresh_token}
use sharp_oauth.OAuth.Token.Rotation.Success.{exchange-Refreshed}
use sharp_oauth.OAuth.Token.Rotation.Failure.{Presents, IsRotated, refresh_replayed}
use sharp_oauth.Tokens.Refresh.{new_row}
use sharp_oauth.Server
use sharp_oauth.Server.{Request, Reach, opening}
use sharp_oauth.Server.Closed.{Closed, IsAllowed, AnyCode, AnySession}
use sharp_oauth.Server.Histories.{Reach-keeps}

abbrev is_live : Uuid → RefreshToken → Bool
is_live family row = eqb row.family_id family && is_none row.revoked_at

-- Every token of the family is revoked.
abbrev pub IsDead : Uuid → Db → Type 0
IsDead family d = None (is_live family) d.refresh_tokens

-- The row is one of another family.
abbrev IsOther : Uuid → RefreshToken → Type 0
IsOther family row = row.family_id ≢ family

dead-of_IsOther :
    (family : Uuid) (row : RefreshToken) → IsOther family row → is_live family row ≡ false
dead-of_IsOther family row other = elim (Bool-cases (eqb row.family_id family)) [
  | inl same ↦ absurd (other (ground arith))
  | inr differs ↦ rw differs refl
]

unlink-dead :
    (codes : List AuthorizationCode) (client family : Uuid) (rows : List RefreshToken)
    → None (is_live family) rows
    → None (is_live family) (unlink_all codes client rows)
unfolding unlink_all unlink
unlink-dead codes client family [] h = tt
unlink-dead codes client family (row ∷ rows) h =
    (ground (arith, h.0), unlink-dead codes client family rows h.1)

IsDead-Closed : (family : Uuid) → Closed (IsDead family) AnyCode (IsOther family) AnySession
unfolding Users.insert Sessions.insert Sessions.revoke_by_hash Clients.insert Clients.update_details
    Clients.update_secret_hash Clients.delete Consents.upsert Codes.insert Codes.claim
    RefreshTokens.insert RefreshTokens.mark_rotated RefreshTokens.revoke_rows
IsDead-Closed family = record {
  user_insert = λ user d h. insert-Safe (IsDead family) _ d _ h (λ _. h);
  session_insert = λ session may d h. insert-Safe (IsDead family) _ d _ h (λ _. h);
  session_revoke = λ token now d h. h;
  client_insert = λ client d h. insert-Safe (IsDead family) _ d _ h (λ _. h);
  client_update = λ id name uris scopes now d h. h;
  client_secret = λ id secret now d h. h;
  client_delete = λ id d h. unlink-dead d.codes id family _ (None-filter _ _ d.refresh_tokens h);
  consent_upsert = λ id user_id client_id scopes now d h. h;
  code_insert = λ code may d h. insert-Safe (IsDead family) _ d _ h (λ _. h);
  code_claim = λ claimed now d h. h;
  token_insert = λ row other d h. insert-Safe (IsDead family) _ d _ h (λ _.
      none-append (is_live family) d.refresh_tokens (row ∷ []) h
        (dead-of_IsOther family row other, tt));
  token_rotate =
      λ id next d h. None-update_where _ _ (rotate_to next) d.refresh_tokens (λ row off. off) h;
  token_revoke = λ chosen now d h.
      None-update_where _ _ (revoke_at now) d.refresh_tokens (λ row off. ground arith) h;
  heir = λ d row next h listed live same is_family.
      ground (arith, None-In (is_live family) d.refresh_tokens row h listed);
}

-- The request does not draw this family id again.
abbrev pub DrawsOther : Uuid → Request → Type 0
DrawsOther family (Server.token headers form draw) = draw.family_id ≢ family
DrawsOther family _ = Unit

allows :
    (app : AppState) (family : Uuid) (r : Request)
    → DrawsOther family r
    → IsAllowed AnyCode (IsOther family) AnySession app r
unfolding new_row
allows app family (Server.authorize headers pairs draw) other = λ request user session. tt
allows app family (Server.consent headers pairs draw) other = λ request user session. tt
allows app family (Server.token headers form draw) other = λ client row. other
allows app family (Server.sign_in headers form draw) other = λ user. tt
allows app family (Server.sign_up headers form draw) other = λ user. tt
allows app family _ other = tt

-- What a refresh that succeeded was presented with: a stored token that is none of a family.
pub record IsElsewhere (app : AppState) (params : Params) (d : Db) (family : Uuid) : Type 0 where
  pub raw : String
  pub row : RefreshToken
  pub given : get params "refresh_token" ≡ some raw
  pub listed : In row d.refresh_tokens
  pub presented : row.token_hash ≡ hash_token app.platform raw
  pub other : row.family_id ≢ family

refresh-IsElsewhere :
    (app : AppState) (client : OAuthClient) (params : Params) (draw : TokenDraw) (c c' : Conn)
    (family : Uuid) (r : TokenResponse)
    → IsDead family c.db
    → exchange_refresh_token app client params draw c ≡ (ok r, c')
    → IsElsewhere app params c.db family
refresh-IsElsewhere app client params draw c c' family r dead h =
    let x = exchange-Refreshed app client params draw c c' r h in
    record {
      raw = x.raw;
      row = x.row;
      given = x.raw_given;
      listed = x.listed;
      presented = x.presented;
      other = λ same.
          ground (arith, x.live, None-In (is_live family) c.db.refresh_tokens x.row dead x.listed);
    }

replayed-IsDead :
    (app : AppState) (client : OAuthClient) (params : Params) (draw : TokenDraw) (c : Conn)
    (raw : String) (wanted : Option ScopeSet) (row : RefreshToken)
    → Presents app client params draw c raw wanted row
    → IsRotated client row
    → IsDead row.family_id (exchange_refresh_token app client params draw c).1.db
replayed-IsDead app client params draw c raw wanted row shown used =
    all-None (is_live row.family_id) _ λ token listed.
      elim (Bool-cases (eqb token.family_id row.family_id)) [
        | inl same ↦ ground (
          arith,
          refresh_replayed app client params draw c raw wanted row shown used token listed
              (ground arith),
        )
        | inr differs ↦ rw differs refl
      ]

-- Once its own client has presented a stored token that was rotated before and is not revoked yet,
-- with no scope or a well-formed one and on a database that answers every call, no token of the
-- family is ever good for a refresh again: whatever requests the server has answered since, with any
-- failures of the database, as long as none of them drew the same family id once more. A refresh
-- that succeeds then was presented with a token of another family.
pub replayed_for_good :
    (app : AppState) (dummy : String) (client client' : OAuthClient) (params params' : Params)
    (draw draw' : TokenDraw) (c d' : Conn) (d : Db) (fails : ℕ → Bool) (raw : String)
    (wanted : Option ScopeSet) (row : RefreshToken) (r' : TokenResponse)
    → Presents app client params draw c raw wanted row
    → IsRotated client row
    → Reach app dummy
        (DrawsOther row.family_id)
        (exchange_refresh_token app client params draw c).1.db
        d
    → exchange_refresh_token app client' params' draw' (opening d fails) ≡ (ok r', d')
    → IsElsewhere app params' d row.family_id
replayed_for_good app dummy client client' params params' draw draw' c d' d fails raw wanted row r'
      shown used history h =
    refresh-IsElsewhere app client' params' draw' (opening d fails) d' row.family_id r'
      (Reach-keeps (IsDead-Closed row.family_id) app dummy (allows app row.family_id) history
        (replayed-IsDead app client params draw c raw wanted row shown used))
      h
