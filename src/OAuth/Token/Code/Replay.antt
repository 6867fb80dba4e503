-- ===== src/OAuth/Token/Code/Replay.antt =====
-- The refused exchanges of an authorization code: failed checks, and used codes.
use sharp_oauth.Prelude.{
  ℕ, ◌≡◌, refl, sym, ap, false, String, Option, some, Result, ok, err, find, ◌==◌, is_none,
}
use sharp_oauth.Prelude.Rows.{In, none-find, update_where-none}
use sharp_oauth.Error.{AppError, DbErr, invalid_grant}
use sharp_oauth.Secret.{hash_token}
use sharp_oauth.Storage.{Db, OAuthClient, AuthorizationCode, RefreshToken}
use sharp_oauth.Storage.Conn.{Conn, ◌>>=◌}
use sharp_oauth.Storage.Codes.{claim, claim_statement, find_by_hash, is_unused, use_at}
use sharp_oauth.Storage.RefreshTokens.{revoke_by_authorization_code, revoke_rows}
use sharp_oauth.Storage.RefreshTokens.Revocation.{revoke_by_authorization_code-revokes}
use sharp_oauth.State.{AppState}
use sharp_oauth.OAuth.Params.{Params, get}
use sharp_oauth.OAuth.Token.Response.{TokenResponse, TokenDraw}
use sharp_oauth.OAuth.Token.Code.{
  check_code_bindings, exchange_authorization_code, redeem, refuse_replay,
}
use sharp_oauth.OAuth.Token.Code.OneTime.{IsSpent, claim-IsSpent}

module _ (app : AppState) (client : OAuthClient) (params : Params) (draw : TokenDraw) (c : Conn)
    (code uri verifier : String) where
  abbrev hash : String
  hash = hash_token app.platform code

  abbrev outcome : Result AppError TokenResponse × Conn
  outcome = exchange_authorization_code app client params draw c

  -- A request that names everything, on a database that answers every call.
  pub record IsServed : Type 0 where
    pub code_given : get params "code" ≡ some code
    pub uri_given : get params "redirect_uri" ≡ some uri
    pub verifier_given : get params "code_verifier" ≡ some verifier
    pub answers : (n : ℕ) → c.fails n ≡ false

  outcome-fails :
      IsServed
      → (row : AuthorizationCode) (d : Db) (e : AppError)
      → claim hash draw.now c.db ≡ (ok (some row), d)
      → check_code_bindings app.platform row client uri verifier draw.now ≡ err e
      → (outcome.0 ≡ err e) × (outcome.1.db ≡ d)
  unfolding exchange_authorization_code redeem ◌>>=◌
  outcome-fails served row d e claimed fails =
      rw
        (
          served.code_given, served.uri_given, served.verifier_given, served.answers,
          served.answers, claimed, fails, served.answers,
        )
        (refl, refl)

  used-fails :
      IsServed
      → (used : AuthorizationCode) → IsSpent hash c.db
      → find (λ row. row.code_hash == hash) c.db.codes ≡ some used
      → (outcome.0 ≡ err (invalid_grant "authorization code has already been used"))
        × (outcome.1.db ≡ (revoke_by_authorization_code used.id draw.now c.db).1)
  unfolding exchange_authorization_code redeem refuse_replay claim claim_statement find_by_hash
      revoke_by_authorization_code revoke_rows ◌>>=◌
  used-fails served used spent found =
      rw
        (
          served.code_given,
          served.uri_given,
          served.verifier_given,
          served.answers,
          served.answers,
          none-find (is_unused hash) _ spent,
          update_where-none (is_unused hash) (use_at draw.now) _ spent,
          served.answers,
          found,
          served.answers,
          served.answers,
        )
        (refl, refl)

  -- A claimed code that fails one of its checks is spent all the same: the request gets the
  -- error of the check, and no unused row of that code is left. The request names all three
  -- parameters and the database answers.
  pub exchange_burns :
      IsServed
      → (row : AuthorizationCode) (d : Db) (e : AppError)
      → claim hash draw.now c.db ≡ (ok (some row), d)
      → check_code_bindings app.platform row client uri verifier draw.now ≡ err e
      → (outcome.0 ≡ err e) × IsSpent hash outcome.1.db
  exchange_burns served row d e claimed fails =
      let (answer, tables) = outcome-fails served row d e claimed fails in
      (
        answer,
        rw (tables, ap (λ (o : Result DbErr (Option AuthorizationCode) × Db). o.1) (sym claimed))
            (claim-IsSpent hash draw.now c.db),
      )

  -- A used code that is presented again is refused, and every refresh token of a family that the
  -- code has started is revoked. The request names all three parameters and the database answers.
  pub exchange_replayed :
      IsServed
      → (used : AuthorizationCode) (first token : RefreshToken) → IsSpent hash c.db
      → find (λ row. row.code_hash == hash) c.db.codes ≡ some used
      → In first c.db.refresh_tokens
      → first.authorization_code_id ≡ some used.id
      → In token outcome.1.db.refresh_tokens
      → token.family_id ≡ first.family_id
      → (outcome.0 ≡ err (invalid_grant "authorization code has already been used"))
        × (is_none token.revoked_at ≡ false)
  exchange_replayed served used first token spent found stored starts listed same =
      let (answer, tables) = used-fails served used spent found in
      (
        answer,
        revoke_by_authorization_code-revokes used.id draw.now c.db first token stored starts
            (rw tables at listed) same,
      )
