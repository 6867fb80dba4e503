-- ===== src/OAuth/Token/Code/Failure.antt =====
-- The exchanges of an authorization code that end in a fault of the server.
use sharp_oauth.Prelude.{
  ℕ, ◌≡◌, refl, String, Option, none, some, Result, ok, err, arith, Bool-cases, inl, inr,
}
use sharp_oauth.Error.{AppError, database, internal}
use sharp_oauth.Platform.{Platform}
use sharp_oauth.Scope.{ScopeSet, offline_access, contains}
use sharp_oauth.Storage.{OAuthClient, AuthorizationCode}
use sharp_oauth.Storage.Conn.{M}
use sharp_oauth.Storage.Conn.Rollback.{
  keeps_rules, KeepsDb, RollsBack, RollsBack-of_KeepsDb, RollsBack-bind, RollsBack-commit-throw,
  RollsBack-commit-pure, KeepsDb-throw, KeepsDb-on_tx, KeepsDb-lift, KeepsDb-begin,
}
use sharp_oauth.State.{AppState}
use sharp_oauth.Tokens.Refresh.{issue}
use sharp_oauth.OAuth.Params.{Params}
use sharp_oauth.OAuth.Token.Response.{TokenResponse, TokenDraw}
use sharp_oauth.OAuth.Token.Code.{
  check_code_bindings, exchange_authorization_code, redeem, settle, issue_tokens, add_refresh_token,
  refuse_replay,
}

-- The server's own failures, which the client sees as `server_error`.
abbrev pub IsFault : AppError → Type 0
IsFault (database _) = Unit
IsFault internal = Unit
IsFault _ = ⊥

KeepsDb-add_refresh_token :
    (app : AppState) (client : OAuthClient) (row : AuthorizationCode) (scope : ScopeSet)
    (draw : TokenDraw) (signed : TokenResponse)
    → KeepsDb (add_refresh_token app client row scope draw signed)
unfolding add_refresh_token issue
KeepsDb-add_refresh_token app client row scope draw signed =
    elim (Bool-cases (contains scope offline_access)) [
      | inl offline ↦ rw offline (search keeps_rules)
      | inr online ↦ rw online (search keeps_rules)
    ]

issue_tokens-RollsBack :
    (app : AppState) (client : OAuthClient) (row : AuthorizationCode) (draw : TokenDraw)
    → RollsBack IsFault (issue_tokens app client row draw)
unfolding issue_tokens
issue_tokens-RollsBack app client row draw = RollsBack-bind _ _ (KeepsDb-lift _) λ scope.
    RollsBack-bind _ _ (KeepsDb-lift _) λ signed.
      RollsBack-bind _ _ (KeepsDb-add_refresh_token app client row scope draw signed)
        λ response. RollsBack-commit-pure database response

check_code_bindings-fails :
    (p : Platform) (row : AuthorizationCode) (client : OAuthClient) (uri verifier : String)
    (now : ℕ) (e : AppError)
    → check_code_bindings p row client uri verifier now ≡ err e
    → ¬ IsFault e
unfolding check_code_bindings
check_code_bindings-fails p row client uri verifier now (database x) h fault = ground arith
check_code_bindings-fails p row client uri verifier now internal h fault = ground arith
check_code_bindings-fails p row client uri verifier now _ h fault = fault

settle-RollsBack :
    (checked : Result AppError (Unit {0})) (next : M AppError TokenResponse)
    → ((e : AppError) → checked ≡ err e → ¬ IsFault e)
    → RollsBack IsFault next
    → RollsBack IsFault (settle checked next)
settle-RollsBack (ok _) next other k = k
settle-RollsBack (err e) next other k = RollsBack-commit-throw database e (other e refl)

refuse_replay-RollsBack :
    (now : ℕ) (found : Option AuthorizationCode) → RollsBack IsFault (refuse_replay now found)
unfolding refuse_replay
refuse_replay-RollsBack now none = RollsBack-of_KeepsDb _ (KeepsDb-throw _)
refuse_replay-RollsBack now (some used) =
    RollsBack-bind _ _ (KeepsDb-on_tx _ _) λ _. RollsBack-commit-throw _ _ (λ h. h)

redeem-RollsBack :
    (app : AppState) (client : OAuthClient) (code_hash uri verifier : String) (draw : TokenDraw)
    (claimed : Option AuthorizationCode)
    → RollsBack IsFault (redeem app client code_hash uri verifier draw claimed)
unfolding redeem
redeem-RollsBack app client code_hash uri verifier draw none =
    RollsBack-bind _ _ (KeepsDb-on_tx _ _) λ found. refuse_replay-RollsBack draw.now found
redeem-RollsBack app client code_hash uri verifier draw (some row) =
    settle-RollsBack _ _ (check_code_bindings-fails app.platform row client uri verifier draw.now)
      (issue_tokens-RollsBack app client row draw)

-- An exchange that ends in a database failure or in a signing failure has changed nothing: the
-- claim of the code is rolled back too, so the code can still be redeemed.
pub exchange-RollsBack :
    (app : AppState) (client : OAuthClient) (params : Params) (draw : TokenDraw)
    → RollsBack IsFault (exchange_authorization_code app client params draw)
unfolding exchange_authorization_code
exchange-RollsBack app client params draw = RollsBack-bind _ _ (KeepsDb-lift _) λ code.
    RollsBack-bind _ _ (KeepsDb-lift _) λ uri. RollsBack-bind _ _ (KeepsDb-lift _) λ verifier.
      RollsBack-bind _ _ (KeepsDb-begin _) λ _.
        RollsBack-bind _ _ (KeepsDb-on_tx _ _)
          λ claimed. redeem-RollsBack app client _ uri verifier draw claimed
