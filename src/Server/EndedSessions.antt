-- ===== src/Server/EndedSessions.antt =====
-- A session that was signed out stays ended, whatever the server is asked afterwards.
use sharp_oauth.Prelude.{
  ℕ, Bool, ◌≡◌, ◌≢◌, refl, false, Bool-cases, inl, inr, String, Option, none, some, [], ◌∷◌, ok,
  arith, ◌==◌, eq_iff,
}
use sharp_oauth.Prelude.Rows.{None, None-update_where, none-append}
use sharp_oauth.Secret.{generate_token, hash_token}
use sharp_oauth.Platform.{Platform}
use sharp_oauth.Storage.{Time, Db, User, Session}
use sharp_oauth.Storage.Users
use sharp_oauth.Storage.Sessions
use sharp_oauth.Storage.Sessions.{is_live}
use sharp_oauth.Storage.Clients
use sharp_oauth.Storage.Codes
use sharp_oauth.Storage.Consents
use sharp_oauth.Storage.RefreshTokens
use sharp_oauth.Storage.Conn.{Conn}
use sharp_oauth.Storage.Conn.Preserve.{insert-Safe}
use sharp_oauth.State.{AppState}
use sharp_oauth.Authentication.Browser.{new_session, revoke, find_active}
use sharp_oauth.Authentication.Browser.Lifetime.{revoke-None, unknown_token}
use sharp_oauth.Server
use sharp_oauth.Server.{Request, Reach, opening}
use sharp_oauth.Server.Closed.{Closed, IsAllowed, AnyCode, AnyToken}
use sharp_oauth.Server.Histories.{Reach-keeps}

-- No session of this hash is live, now or later.
abbrev pub IsEnded : String → Db → Type 0
IsEnded hash d = (later : Time) → None (is_live hash later) d.sessions

-- The row is one of another token.
abbrev IsOther : String → Session → Type 0
IsOther hash session = session.session_token_hash ≢ hash

dead-of_IsOther :
    (hash : String) (session : Session) (later : Time)
    → IsOther hash session
    → is_live hash later session ≡ false
dead-of_IsOther hash session later other = elim (Bool-cases (session.session_token_hash == hash)) [
  | inl same ↦ absurd (other ((eq_iff session.session_token_hash hash).0 same))
  | inr differs ↦ rw differs refl
]

IsEnded-Closed : (hash : String) → Closed (IsEnded hash) AnyCode AnyToken (IsOther hash)
unfolding Users.insert Sessions.insert Sessions.revoke_by_hash Clients.insert Clients.update_details
    Clients.update_secret_hash Clients.delete Consents.upsert Codes.insert Codes.claim
    RefreshTokens.insert RefreshTokens.mark_rotated RefreshTokens.revoke_rows
IsEnded-Closed hash = record {
  user_insert = λ user d h. insert-Safe (IsEnded hash) _ d _ h (λ _. h);
  session_insert = λ session other d h. insert-Safe (IsEnded hash) _ d _ h (λ _ later.
      none-append (is_live hash later) d.sessions (session ∷ []) (h later)
        (dead-of_IsOther hash session later other, tt));
  session_revoke = λ token now d h later.
      None-update_where _ _ (λ row. record row { revoked_at = some now }) d.sessions
        (λ row off. ground arith) (h later);
  client_insert = λ client d h. insert-Safe (IsEnded hash) _ d _ h (λ _. h);
  client_update = λ id name uris scopes now d h. h;
  client_secret = λ id secret now d h. h;
  client_delete = λ id d h. h;
  consent_upsert = λ id user_id client_id scopes now d h. h;
  code_insert = λ code may d h. insert-Safe (IsEnded hash) _ d _ h (λ _. h);
  code_claim = λ claimed now d h. h;
  token_insert = λ row may d h. insert-Safe (IsEnded hash) _ d _ h (λ _. h);
  token_rotate = λ id next d h. h;
  token_revoke = λ chosen now d h. h;
  heir = λ d row next h listed live same. tt;
}

-- The request does not draw this session token again.
abbrev pub DrawsOther : Platform → String → Request → Type 0
DrawsOther p hash (Server.sign_in headers form draw) =
    hash_token p (generate_token p draw.session_bytes) ≢ hash
DrawsOther p hash (Server.sign_up headers form draw) =
    hash_token p (generate_token p draw.session_bytes) ≢ hash
DrawsOther p hash _ = Unit

allows :
    (app : AppState) (hash : String) (r : Request)
    → DrawsOther app.platform hash r
    → IsAllowed AnyCode AnyToken (IsOther hash) app r
unfolding new_session
allows app hash (Server.sign_in headers form draw) other = λ user. other
allows app hash (Server.sign_up headers form draw) other = λ user. other
allows app hash (Server.authorize headers pairs draw) other = λ request user session. tt
allows app hash (Server.consent headers pairs draw) other = λ request user session. tt
allows app hash (Server.token headers form draw) other = λ client row. tt
allows app hash _ other = tt

-- Once a session was signed out its token never signs anybody in again: whatever requests the
-- server has answered in between, with any failures of the database, as long as none of them drew a
-- session token of the same hash once more.
pub signed_out_for_good :
    (app : AppState) (dummy token : String) (now later : Time) (c c' d' : Conn) (d : Db)
    (fails : ℕ → Bool) (found : Option (Session × User))
    → revoke app.platform token now c ≡ (ok tt, c')
    → Reach app dummy (DrawsOther app.platform (hash_token app.platform token)) c'.db d
    → find_active app.platform token later (opening d fails) ≡ (ok found, d')
    → found ≡ none
signed_out_for_good app dummy token now later c c' d' d fails found ended history h =
    let gone =
      Reach-keeps (IsEnded-Closed (hash_token app.platform token)) app dummy
        (allows app (hash_token app.platform token)) history
        (λ at. revoke-None app.platform token now at c c' ended) in
    unknown_token app.platform token later (opening d fails) d' found (gone later) h
