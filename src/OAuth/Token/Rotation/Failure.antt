-- ===== src/OAuth/Token/Rotation/Failure.antt =====
-- The refreshes that fail: replayed tokens, and every other failure.
use sharp_oauth.Prelude.{
  ℕ, ◌≡◌, ◌≢◌, refl, false, String, Option, none, some, arith, Result, ok, err, find, ◌==◌, is_none,
}
use sharp_oauth.Prelude.Rows.{In}
use sharp_oauth.Error.{AppError, database, invalid_grant}
use sharp_oauth.Secret.{hash_token}
use sharp_oauth.Scope.{ScopeSet}
use sharp_oauth.Storage.{Uuid, Time, OAuthClient, RefreshToken}
use sharp_oauth.Storage.Conn.{Conn, ◌>>=◌}
use sharp_oauth.Storage.Conn.Rollback.{
  KeepsDb-bind, KeepsDb-on_tx, KeepsDb-pure, KeepsDb-lift, KeepsDb-begin, KeepsDb-throw, RollsBack,
  RollsBack-of_KeepsDb, RollsBack-bind, RollsBack-commit-throw, RollsBack-commit-pure,
}
use sharp_oauth.Storage.RefreshTokens.{find_by_hash_for_update, revoke_family, revoke_rows}
use sharp_oauth.Storage.RefreshTokens.Revocation.{revoke_family-revokes}
use sharp_oauth.State.{AppState}
use sharp_oauth.Tokens.Refresh.{
  Unusable, wrong_client, revoked, already_rotated, expired, check_usable, issue,
}
use sharp_oauth.OAuth.Params.{Params, get}
use sharp_oauth.OAuth.Token.Response.{TokenResponse, TokenDraw}
use sharp_oauth.OAuth.Token.Rotation.{requested, rotate, answer, exchange_refresh_token}

abbrev pub replayed : AppError
replayed = invalid_grant "refresh token has already been used"

-- Any failure but a replay.
abbrev pub IsOther : AppError → Type 0
IsOther e = e ≢ replayed

rotate-RollsBack :
    (app : AppState) (client : OAuthClient) (row : RefreshToken) (wanted : Option ScopeSet)
    (draw : TokenDraw)
    → RollsBack IsOther (rotate app client row wanted draw)
unfolding rotate issue
rotate-RollsBack app client row wanted draw = RollsBack-bind _ _ (KeepsDb-lift _) λ _.
    RollsBack-bind _ _ (KeepsDb-lift _) λ _. RollsBack-bind _ _ (KeepsDb-lift _) λ _.
      RollsBack-bind _ _ (KeepsDb-bind _ _ (KeepsDb-on_tx _ _) λ _. KeepsDb-pure _)
        λ _. RollsBack-bind _ _ (KeepsDb-on_tx _ _) λ _. RollsBack-commit-pure _ _

answer-RollsBack :
    (app : AppState) (client : OAuthClient) (row : RefreshToken) (wanted : Option ScopeSet)
    (draw : TokenDraw) (usable : Result Unusable (Unit {0}))
    → RollsBack IsOther (answer app client row wanted draw usable)
unfolding answer
answer-RollsBack app client row wanted draw (ok _) = rotate-RollsBack app client row wanted draw
answer-RollsBack app client row wanted draw (err already_rotated) =
    RollsBack-bind _ _ (KeepsDb-on_tx _ _)
      λ _. RollsBack-commit-throw database replayed (λ other. other refl)
answer-RollsBack app client row wanted draw (err wrong_client) =
    RollsBack-of_KeepsDb _ (KeepsDb-throw _)
answer-RollsBack app client row wanted draw (err revoked) = RollsBack-of_KeepsDb _ (KeepsDb-throw _)
answer-RollsBack app client row wanted draw (err expired) = RollsBack-of_KeepsDb _ (KeepsDb-throw _)

-- A refresh that ends in any error but that of a replayed token has changed nothing: not for the
-- wrong client, a wider scope, an expired or revoked token, nor a database or signing failure.
pub refresh-RollsBack :
    (app : AppState) (client : OAuthClient) (params : Params) (draw : TokenDraw)
    → RollsBack IsOther (exchange_refresh_token app client params draw)
unfolding exchange_refresh_token
refresh-RollsBack app client params draw = RollsBack-bind _ _ (KeepsDb-lift _) λ raw.
    RollsBack-bind _ _ (KeepsDb-lift _) λ wanted. RollsBack-bind _ _ (KeepsDb-begin _) λ _.
      RollsBack-bind _ _ (KeepsDb-on_tx _ _) λ found.
        RollsBack-bind _ _ (KeepsDb-lift _)
          λ row. answer-RollsBack app client row wanted draw (check_usable row client.id draw.now)

-- The client's own token, rotated before and not revoked.
pub record IsRotated (client : OAuthClient) (row : RefreshToken) : Type 0 where
  pub own : row.client_id ≡ client.id
  pub live : row.revoked_at ≡ none
  pub next : Uuid
  pub rotated : row.rotated_to_id ≡ some next

rotated-unusable :
    (client : OAuthClient) (row : RefreshToken) (now : Time)
    → IsRotated client row
    → check_usable row client.id now ≡ err already_rotated
unfolding check_usable
rotated-unusable client row now h = ground (arith, h.own, h.live, h.rotated)

module _ (app : AppState) (client : OAuthClient) (params : Params) (draw : TokenDraw) (c : Conn)
    (raw : String) (wanted : Option ScopeSet) (row : RefreshToken) where
  abbrev outcome : Result AppError TokenResponse × Conn
  outcome = exchange_refresh_token app client params draw c

  -- The request presents this row, on a database that answers every call.
  pub record Presents : Type 0 where
    pub raw_given : get params "refresh_token" ≡ some raw
    pub wanted_given : requested (get params "scope") ≡ ok wanted
    pub found :
        find
          (λ (row : RefreshToken). row.token_hash == hash_token app.platform raw)
          c.db.refresh_tokens
        ≡ some row
    pub answers : (n : ℕ) → c.fails n ≡ false

  replayed-fails :
      Presents
      → check_usable row client.id draw.now ≡ err already_rotated
      → (outcome.0 ≡ err replayed) × (outcome.1.db ≡ (revoke_family row.family_id draw.now c.db).1)
  unfolding exchange_refresh_token answer find_by_hash_for_update revoke_family revoke_rows ◌>>=◌
  replayed-fails h used =
      rw (h.raw_given, h.wanted_given, h.answers, h.answers, h.found, used, h.answers, h.answers)
        (refl, refl)

  -- When its own client presents a stored token that was rotated before and is not revoked yet,
  -- with no scope or a well-formed one and on a database that answers every call, the request is
  -- refused as a replay and every token of the family is revoked, the newest one included.
  pub refresh_replayed :
      Presents
      → IsRotated client row
      → (token : RefreshToken) → In token outcome.1.db.refresh_tokens
      → token.family_id ≡ row.family_id
      → (outcome.0 ≡ err replayed) × (is_none token.revoked_at ≡ false)
  refresh_replayed h used token listed same =
      let (answer, tables) = replayed-fails h (rotated-unusable client row draw.now used) in
      (answer, revoke_family-revokes row.family_id draw.now c.db token (rw tables at listed) same)
