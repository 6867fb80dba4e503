-- ===== src/Authentication/Browser/Lifetime.antt =====
-- Which tokens resolve to a user, and what a sign-out ends.
use sharp_oauth.Prelude.{
  ◌≡◌, ◌<◌, sym, ap, String, Option, none, some, Result, ok, arith, Bool-cases, inl, inr, find,
  ◌==◌, ◌&&◌, eqb, is_none, List, [], ◌∷◌, update_where, eq_iff,
}
use sharp_oauth.Prelude.Rows.{In, None, find-In, find-passes, none-find}
use sharp_oauth.Error.{AppError, DbErr}
use sharp_oauth.Platform.{Platform}
use sharp_oauth.Secret.{hash_token}
use sharp_oauth.Storage.{Time, Db, User, Session}
use sharp_oauth.Storage.Sessions.{is_live, find_active_by_hash, revoke_by_hash}
use sharp_oauth.Storage.Users.{find_by_id}
use sharp_oauth.Storage.Conn.{Conn, pure}
use sharp_oauth.Storage.Conn.Steps.{after_pool}
use sharp_oauth.Authentication.Browser.{with_session, resolve, find_active, revoke}

-- A session that is good at this time, for this token and this user.
pub record IsSignedIn (p : Platform) (d : Db) (token : String) (now : Time) (session : Session)
    (user : User) : Type 0 where
  pub listed : In session d.sessions
  pub presented : session.session_token_hash ≡ hash_token p token
  pub live : session.revoked_at ≡ none
  pub fresh : now < session.expires_at
  pub known : In user d.users
  pub owner : user.id ≡ session.user_id

-- A token resolves only to a stored session with its hash that is neither revoked nor expired,
-- and to the stored user of that session.
pub find_active-IsSignedIn :
    (p : Platform) (token : String) (now : Time) (c c' : Conn) (session : Session) (user : User)
    → find_active p token now c ≡ (ok (some (session, user)), c')
    → IsSignedIn p c.db token now session user
unfolding find_active resolve find_active_by_hash find_by_id pure
find_active-IsSignedIn p token now c c' session user h =
    after_pool _ c _ _ h λ found c₁ run rest. go found c₁ run rest
  where
    go :
        (found : Option Session) (c₁ : Conn)
        → find_active_by_hash (hash_token p token) now c.db ≡ (ok found, c₁.db)
        → resolve found c₁ ≡ (ok (some (session, user)), c')
        → IsSignedIn p c.db token now session user
    go none c₁ run rest = ground arith
    go (some s) c₁ run rest = after_pool _ c₁ _ _ rest λ owner c₂ looked fin.
        let hit : find (is_live (hash_token p token) now) c.db.sessions ≡ some s =
          ground (arith, run) in
        let same_db : c₁.db ≡ c.db =
          ap (λ (o : Result DbErr (Option Session) × Db). o.1) (sym run) in
        let is_pair : with_session s owner ≡ some (session, user) = ground (arith, fin) in
        let is_user : owner ≡ some user = ground arith in
        let is_session : s ≡ session = ground arith in
        let is_known : find (λ (row : User). eqb row.id s.user_id) c₁.db.users ≡ some user =
          ground (arith, looked) in
        let passes = find-passes _ _ s hit in
        record {
          listed = rw (← is_session) (find-In _ _ s hit);
          presented =
              rw (← is_session)
                ((eq_iff s.session_token_hash (hash_token p token)).0 (ground arith));
          live = rw (← is_session) (ground arith);
          fresh = rw (← is_session) (ground arith);
          known = rw same_db at (find-In _ _ user is_known);
          owner = rw (← is_session) (ground (arith, find-passes _ _ user is_known));
        }

None-is_live :
    (hash : String) (now later : Time) (rows : List Session)
    → None (is_live hash later) (
        update_where
          (λ row. row.session_token_hash == hash && is_none row.revoked_at)
          (λ row. record row { revoked_at = some now })
          rows)
unfolding update_where
None-is_live hash now later [] = tt
None-is_live hash now later (row ∷ rows) = (
  elim (Bool-cases (row.session_token_hash == hash && is_none row.revoked_at)) [
    | inl hit ↦ rw hit (ground arith)
    | inr miss ↦ rw miss (ground arith)
  ],
  None-is_live hash now later rows,
)

-- A token that no live session has resolves to nobody.
pub unknown_token :
    (p : Platform) (token : String) (now : Time) (d d' : Conn) (found : Option (Session × User))
    → None (is_live (hash_token p token) now) d.db.sessions
    → find_active p token now d ≡ (ok found, d')
    → found ≡ none
unfolding find_active resolve find_active_by_hash pure
unknown_token p token now d d' found dead looked =
    after_pool _ d _ _ looked λ session d₁ searched rest.
      let gone = none-find _ _ dead in go session d₁ (ground (arith, searched)) rest
  where
    go :
        (session : Option Session) (d₁ : Conn)
        → session ≡ none
        → resolve session d₁ ≡ (ok found, d')
        → found ≡ none
    go none d₁ e rest = ground arith
    go (some s) d₁ e rest = cc e

-- After a sign-out no live session has the token's hash.
pub revoke-None :
    (p : Platform) (token : String) (now later : Time) (c c' : Conn)
    → revoke p token now c ≡ (ok tt, c')
    → None (is_live (hash_token p token) later) c'.db.sessions
unfolding revoke revoke_by_hash pure
revoke-None p token now later c c' h = after_pool _ c _ _ h λ _ c₁ run fin.
    rw
      (
        ← ap (λ (o : Result AppError (Unit {0}) × Conn). o.1.db.sessions) fin,
        ← ap (λ (o : Result DbErr (Unit {0}) × Db). o.1.sessions) run,
      )
      (None-is_live (hash_token p token) now later c.db.sessions)

-- After a sign-out the token resolves to nobody, at any later time, while the stored sessions are
-- what the sign-out left.
revoke_lem :
    (p : Platform) (token : String) (now later : Time) (c c' d d' : Conn)
    (found : Option (Session × User))
    → revoke p token now c ≡ (ok tt, c')
    → d.db.sessions ≡ c'.db.sessions
    → find_active p token later d ≡ (ok found, d')
    → found ≡ none
revoke_lem p token now later c c' d d' found h same looked =
    unknown_token p token later d d' found (rw same (revoke-None p token now later c c' h)) looked
