-- ===== src/Server/SpentCodes.antt =====
-- A spent authorization code stays spent, whatever the server is asked afterwards.
use sharp_oauth.Prelude.{
  ℕ, Bool, ◌≡◌, ◌≢◌, refl, false, Bool-cases, inl, inr, String, some, [], ◌∷◌, ok, arith, ◌==◌,
  eq_iff,
}
use sharp_oauth.Prelude.Rows.{None-update_where, None-filter, none-append}
use sharp_oauth.Secret.{generate_token, hash_token}
use sharp_oauth.Platform.{Platform}
use sharp_oauth.Storage.{Db, OAuthClient, AuthorizationCode}
use sharp_oauth.Storage.Users
use sharp_oauth.Storage.Sessions
use sharp_oauth.Storage.Clients
use sharp_oauth.Storage.Codes
use sharp_oauth.Storage.Codes.{is_unused, use_at, claim_statement}
use sharp_oauth.Storage.Consents
use sharp_oauth.Storage.RefreshTokens
use sharp_oauth.Storage.Conn.{Conn}
use sharp_oauth.Storage.Conn.Preserve.{insert-Safe}
use sharp_oauth.State.{AppState}
use sharp_oauth.OAuth.Params.{Params, get}
use sharp_oauth.OAuth.Token.Response.{TokenResponse, TokenDraw}
use sharp_oauth.OAuth.Token.Code.{exchange_authorization_code}
use sharp_oauth.OAuth.Token.Code.OneTime.{IsSpent, exchange-spent}
use sharp_oauth.OAuth.Token.Code.Success.{exchange-IsSpent}
use sharp_oauth.OAuth.Authorization.Decision.{new_code}
use sharp_oauth.Server
use sharp_oauth.Server.{Request, Reach, opening}
use sharp_oauth.Server.Closed.{Closed, IsAllowed, AnyToken, AnySession}
use sharp_oauth.Server.Histories.{Reach-keeps}

-- The row is one of another code.
abbrev IsOther : String → AuthorizationCode → Type 0
IsOther hash code = code.code_hash ≢ hash

unused-of_IsOther :
    (hash : String) (code : AuthorizationCode) → IsOther hash code → is_unused hash code ≡ false
unused-of_IsOther hash code other = elim (Bool-cases (code.code_hash == hash)) [
  | inl same ↦ absurd (other ((eq_iff code.code_hash hash).0 same))
  | inr differs ↦ rw differs refl
]

IsSpent-Closed : (hash : String) → Closed (IsSpent hash) (IsOther hash) AnyToken AnySession
unfolding Users.insert Sessions.insert Sessions.revoke_by_hash Clients.insert Clients.update_details
    Clients.update_secret_hash Clients.delete Consents.upsert Codes.insert Codes.claim
    claim_statement RefreshTokens.insert RefreshTokens.mark_rotated RefreshTokens.revoke_rows
IsSpent-Closed hash = record {
  user_insert = λ user d h. insert-Safe (IsSpent hash) _ d _ h (λ _. h);
  session_insert = λ session may d h. insert-Safe (IsSpent hash) _ d _ h (λ _. h);
  session_revoke = λ token now d h. h;
  client_insert = λ client d h. insert-Safe (IsSpent hash) _ d _ h (λ _. h);
  client_update = λ id name uris scopes now d h. h;
  client_secret = λ id secret now d h. h;
  client_delete = λ id d h. None-filter _ _ d.codes h;
  consent_upsert = λ id user_id client_id scopes now d h. h;
  code_insert = λ code other d h. insert-Safe (IsSpent hash) _ d _ h (λ _.
      none-append (is_unused hash) d.codes (code ∷ []) h (unused-of_IsOther hash code other, tt));
  code_claim =
      λ claimed now d h. None-update_where _ _ (use_at now) d.codes (λ row off. ground arith) h;
  token_insert = λ row may d h. insert-Safe (IsSpent hash) _ d _ h (λ _. h);
  token_rotate = λ id next d h. h;
  token_revoke = λ chosen now d h. h;
  heir = λ d row next h listed live same. tt;
}

-- The request does not draw this code again.
abbrev pub DrawsOther : Platform → String → Request → Type 0
DrawsOther p hash (Server.authorize headers pairs draw) =
    hash_token p (generate_token p draw.authorization.code_bytes) ≢ hash
DrawsOther p hash (Server.consent headers pairs draw) =
    hash_token p (generate_token p draw.authorization.code_bytes) ≢ hash
DrawsOther p hash _ = Unit

allows :
    (app : AppState) (hash : String) (r : Request)
    → DrawsOther app.platform hash r
    → IsAllowed (IsOther hash) AnyToken AnySession app r
unfolding new_code
allows app hash (Server.authorize headers pairs draw) other = λ request user session. other
allows app hash (Server.consent headers pairs draw) other = λ request user session. other
allows app hash (Server.token headers form draw) other = λ client row. tt
allows app hash (Server.sign_in headers form draw) other = λ user. tt
allows app hash (Server.sign_up headers form draw) other = λ user. tt
allows app hash _ other = tt

-- Once a code has been redeemed, no exchange of it ever succeeds again: whatever requests the
-- server has answered in between, with any failures of the database, as long as none of them drew
-- a code of the same hash once more. Nor does another client, verifier or redirect URI help.
pub redeemed_for_good :
    (app : AppState) (dummy : String) (client client' : OAuthClient) (params params' : Params)
    (draw draw' : TokenDraw) (c c' d' : Conn) (d : Db) (fails : ℕ → Bool) (code : String)
    (r r' : TokenResponse)
    → get params "code" ≡ some code
    → get params' "code" ≡ some code
    → exchange_authorization_code app client params draw c ≡ (ok r, c')
    → Reach app dummy (DrawsOther app.platform (hash_token app.platform code)) c'.db d
    → exchange_authorization_code app client' params' draw' (opening d fails) ≢ (ok r', d')
redeemed_for_good app dummy client client' params params' draw draw' c c' d' d fails code r r' given
      given' h history =
    exchange-spent app client' params' draw' (opening d fails) d' code r' given' (
      Reach-keeps (IsSpent-Closed (hash_token app.platform code)) app dummy
        (allows app (hash_token app.platform code)) history
        (exchange-IsSpent app client params draw c c' code r given h))
