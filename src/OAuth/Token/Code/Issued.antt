-- ===== src/OAuth/Token/Code/Issued.antt =====
-- What the checks of a code bind, and what the tokens that are issued for it leave behind.
use sharp_oauth.Prelude.{
  ◌≡◌, sym, ap, ◌∙◌, ◌<◌, true, String, some, Result, ok, arith, eq_iff, Bool-cases, inl, inr,
  if◌then◌else◌,
}
use sharp_oauth.Error.{AppError}
use sharp_oauth.Platform.{Platform}
use sharp_oauth.Secret.{generate_token}
use sharp_oauth.Scope.{ScopeSet, offline_access, contains}
use sharp_oauth.Storage.{Db, Time, OAuthClient, AuthorizationCode, RefreshToken}
use sharp_oauth.Storage.Conn.{Conn, pure}
use sharp_oauth.Storage.Conn.Steps.{after_lift, after_commit, >>=-ok}
use sharp_oauth.State.{AppState}
use sharp_oauth.Tokens.Refresh.{new_row}
use sharp_oauth.Tokens.Refresh.Issue.{with_token, after_issue}
use sharp_oauth.OAuth.Pkce.{s256, verify_s256}
use sharp_oauth.OAuth.Token.Response.{TokenResponse, TokenDraw, signed_tokens, stored_scope}
use sharp_oauth.OAuth.Token.Code.{
  check_code_bindings, issue_tokens, add_refresh_token, family_of_code,
}

-- The bindings of a code, as the token request has to meet them.
pub record IsBound (p : Platform) (row : AuthorizationCode) (client : OAuthClient)
    (redirect_uri code_verifier : String) (now : Time) : Type 0 where
  pub same_client : row.client_id ≡ client.id
  pub fresh : now < row.expires_at
  pub same_uri : row.redirect_uri ≡ redirect_uri
  pub method : row.code_challenge_method ≡ s256
  pub proof : verify_s256 p code_verifier row.code_challenge ≡ true

pub check_code_bindings-IsBound :
    (p : Platform) (row : AuthorizationCode) (client : OAuthClient) (uri verifier : String)
    (now : Time)
    → check_code_bindings p row client uri verifier now ≡ ok tt
    → IsBound p row client uri verifier now
unfolding check_code_bindings
check_code_bindings-IsBound p row client uri verifier now h = record {
  same_client = ground arith;
  fresh = ground arith;
  same_uri = ground (arith, eq_iff row.redirect_uri uri);
  method = ground (arith, eq_iff row.code_challenge_method s256);
  proof = ground arith;
}

-- The row that an exchange adds, if the scope asks for one.
abbrev pub first_token : AppState → OAuthClient → AuthorizationCode → TokenDraw → RefreshToken
first_token app client row draw =
    new_row app.platform (family_of_code row client draw) draw.token_bytes draw.token_id draw.now

abbrev pub tables_after :
    AppState → OAuthClient → AuthorizationCode → ScopeSet → TokenDraw → Db → Db
tables_after app client row scope draw d =
    if contains scope offline_access then with_token (first_token app client row draw) d else d

abbrev pub response_after : AppState → ScopeSet → TokenDraw → TokenResponse → TokenResponse
response_after app scope draw signed =
    if contains scope offline_access
    then record signed { refresh_token = some (generate_token app.platform draw.token_bytes) }
    else signed

-- The outcome of the third step.
pub record Issued (app : AppState) (client : OAuthClient) (row : AuthorizationCode)
    (draw : TokenDraw) (before after : Db) (r : TokenResponse) : Type 0 where
  pub scope : ScopeSet
  pub signed : TokenResponse
  pub stored : stored_scope row.scope ≡ ok scope
  pub signs :
      signed_tokens app client row.user_id scope row.auth_time row.nonce draw.now draw.jti
      ≡ ok signed
  pub tables : after ≡ tables_after app client row scope draw before
  pub response : r ≡ response_after app scope draw signed

add_refresh_token-ok :
    (app : AppState) (client : OAuthClient) (row : AuthorizationCode) (scope : ScopeSet)
    (draw : TokenDraw) (signed : TokenResponse) (c : Conn) {r : TokenResponse} {c' : Conn}
    → add_refresh_token app client row scope draw signed c ≡ (ok r, c')
    → (c'.tx ≡ tables_after app client row scope draw c.tx)
      × (r ≡ response_after app scope draw signed)
unfolding add_refresh_token pure
add_refresh_token-ok app client row scope draw signed c {r} {c'} h =
    elim (Bool-cases (contains scope offline_access)) [
      | inl offline ↦
          after_issue _ _ _ _ _ _ _ c (rw offline at h) λ c₁ grown free same fin.
            (rw offline (ground (arith, grown)), rw offline (ground arith))
      | inr online ↦ (ground arith, ground arith)
    ]

pub issue_tokens-Issued :
    (app : AppState) (client : OAuthClient) (row : AuthorizationCode) (draw : TokenDraw) (c : Conn)
    {r : TokenResponse} {c' : Conn}
    → issue_tokens app client row draw c ≡ (ok r, c')
    → Issued app client row draw c.tx c'.db r
unfolding issue_tokens pure
issue_tokens-Issued app client row draw c {r} {c'} h = after_lift _ _ _ h λ scope stored h₁.
    after_lift _ _ _ h₁ λ signed signs h₂.
      let (response, c₁, e, h₃) = >>=-ok _ _ c h₂ in
      let (tables, same) = add_refresh_token-ok app client row scope draw signed c e in
      after_commit _ _ _ h₃ λ c₂ committed fin. record {
        scope = scope;
        signed = signed;
        stored = stored;
        signs = signs;
        tables =
            ap (λ (o : Result AppError TokenResponse × Conn). o.1.db) (sym fin)
            ∙ committed
            ∙ tables;
        response = ground (arith, fin) ∙ same;
      }
