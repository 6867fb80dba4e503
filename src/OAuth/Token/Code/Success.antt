-- ===== src/OAuth/Token/Code/Success.antt =====
-- What a successful exchange of an authorization code has checked, and what it leaves behind.
use sharp_oauth.Prelude.{
  ◌≡◌, refl, ap, ◌∙◌, ◌≢◌, true, String, Option, none, some, Result, ok, err, arith, find,
}
use sharp_oauth.Prelude.Rows.{In, find-passes, find-In}
use sharp_oauth.Error.{AppError, DbErr}
use sharp_oauth.Secret.{hash_token}
use sharp_oauth.Scope.{ScopeSet}
use sharp_oauth.Storage.{Db, Time, OAuthClient, AuthorizationCode}
use sharp_oauth.Storage.Conn.{Conn, M, throw}
use sharp_oauth.Storage.Conn.Steps.{after_commit}
use sharp_oauth.Storage.Codes.{claim, claim_statement, is_unused, use_at, returning}
use sharp_oauth.State.{AppState}
use sharp_oauth.OAuth.Params.{Params, get}
use sharp_oauth.OAuth.Token.Response.{TokenResponse, TokenDraw}
use sharp_oauth.OAuth.Token.Code.{
  check_code_bindings, exchange_authorization_code, redeem, settle, issue_tokens,
}
use sharp_oauth.OAuth.Token.Code.OneTime.{IsSpent, claim-IsSpent, exchange-Redeemed, exchange-spent}
use sharp_oauth.OAuth.Token.Code.Issued.{
  IsBound, check_code_bindings-IsBound, tables_after, Issued, issue_tokens-Issued,
}

settle-fails :
    (e : AppError) (next : M AppError TokenResponse) (c : Conn) {r : TokenResponse} {c' : Conn}
    → settle (err e) next c ≢ (ok r, c')
unfolding throw
settle-fails e next c h = after_commit _ _ _ h λ c₁ committed fin. ground arith

redeem-ok :
    (app : AppState) (client : OAuthClient) (code_hash uri verifier : String) (draw : TokenDraw)
    (row : AuthorizationCode) (c : Conn) {r : TokenResponse} {c' : Conn}
    → redeem app client code_hash uri verifier draw (some row) c ≡ (ok r, c')
    → IsBound app.platform row client uri verifier draw.now
      × Issued app client row draw c.tx c'.db r
unfolding redeem
redeem-ok app client code_hash uri verifier draw row c {r} {c'} h =
    go (check_code_bindings app.platform row client uri verifier draw.now) refl h
  where
    go :
        (o : Result AppError (Unit {0}))
        → check_code_bindings app.platform row client uri verifier draw.now ≡ o
        → settle o (issue_tokens app client row draw) c ≡ (ok r, c')
        → IsBound app.platform row client uri verifier draw.now
          × Issued app client row draw c.tx c'.db r
    go (ok _) e h = (
      check_code_bindings-IsBound _ row client uri verifier draw.now e,
      issue_tokens-Issued app client row draw c h,
    )
    go (err x) e h = absurd (settle-fails x (issue_tokens app client row draw) c h)

-- A code as it stood before it was claimed.
abbrev pub claimed_from : AuthorizationCode → TokenDraw → AuthorizationCode
claimed_from before draw = use_at draw.now before

-- Everything that a successful exchange has checked and done.
pub record Exchanged (app : AppState) (client : OAuthClient) (params : Params) (draw : TokenDraw)
    (before after : Db) (r : TokenResponse) : Type 0 where
  pub code : String
  pub redirect_uri : String
  pub code_verifier : String
  pub stored : AuthorizationCode
  pub code_given : get params "code" ≡ some code
  pub uri_given : get params "redirect_uri" ≡ some redirect_uri
  pub verifier_given : get params "code_verifier" ≡ some code_verifier
  pub listed : In stored before.codes
  pub unused : is_unused (hash_token app.platform code) stored ≡ true
  pub bound : IsBound app.platform stored client redirect_uri code_verifier draw.now
  pub issued :
      Issued app client
        (claimed_from stored draw)
        draw
        (record before {
          codes = claim_statement (hash_token app.platform code) draw.now before.codes;
        })
        after
        r

found-cases :
    (o : Option AuthorizationCode) (now : Time) (row : AuthorizationCode)
    → returning now o ≡ some row
    → (stored : AuthorizationCode) × (o ≡ some stored) × (use_at now stored ≡ row)
found-cases none now row e = cc
found-cases (some stored) now row e = (stored, refl, cc e)

-- A successful exchange has found an unused code that is bound to this client, redirect URI and
-- verifier and has not expired. It leaves that code used and, with `offline_access`, one new
-- refresh token, and changes nothing else.
pub exchange-Exchanged :
    (app : AppState) (client : OAuthClient) (params : Params) (draw : TokenDraw) (c c' : Conn)
    (r : TokenResponse)
    → exchange_authorization_code app client params draw c ≡ (ok r, c')
    → Exchanged app client params draw c.db c'.db r
unfolding claim
exchange-Exchanged app client params draw c c' r h =
    let s = exchange-Redeemed app client params draw c h in
    let (bound, issued) = redeem-ok app client _ _ _ draw s.row s.claimed s.redeems in
    let result : returning draw.now (find (is_unused (hash_token app.platform s.code)) c.db.codes)
        ≡ some s.row =
      ground (arith, s.claims) in
    let tables : record c.db {
      codes = claim_statement (hash_token app.platform s.code) draw.now c.db.codes;
    }
        ≡ s.claimed.tx =
      ap (λ (o : Result DbErr (Option AuthorizationCode) × Db). o.1) s.claims in
    let (stored, found, same) = found-cases _ draw.now s.row result in
    record {
      code = s.code;
      redirect_uri = s.redirect_uri;
      code_verifier = s.code_verifier;
      stored = stored;
      code_given = s.code_given;
      uri_given = s.uri_given;
      verifier_given = s.verifier_given;
      listed = find-In _ _ stored found;
      unused = find-passes _ _ stored found;
      bound = record {
        same_client = ap (λ (x : AuthorizationCode). x.client_id) same ∙ bound.same_client;
        fresh = rw (← same) at bound.fresh;
        same_uri = ap (λ (x : AuthorizationCode). x.redirect_uri) same ∙ bound.same_uri;
        method = ap (λ (x : AuthorizationCode). x.code_challenge_method) same ∙ bound.method;
        proof = rw (← same) at bound.proof;
      };
      issued = rw (same, tables) issued;
    }

codes-tables_after :
    (app : AppState) (client : OAuthClient) (row : AuthorizationCode) (scope : ScopeSet)
    (draw : TokenDraw) (d : Db)
    → (tables_after app client row scope draw d).codes ≡ d.codes
codes-tables_after app client row scope draw d = ground arith

Exchanged-IsSpent :
    (app : AppState) (client : OAuthClient) (params : Params) (draw : TokenDraw) (before after : Db)
    (r : TokenResponse) (x : Exchanged app client params draw before after r)
    → IsSpent (hash_token app.platform x.code) after
unfolding claim
Exchanged-IsSpent app client params draw before after r x =
    rw (x.issued.tables, codes-tables_after)
      (claim-IsSpent (hash_token app.platform x.code) draw.now before)

-- A successful exchange leaves no unused row of the code.
pub exchange-IsSpent :
    (app : AppState) (client : OAuthClient) (params : Params) (draw : TokenDraw) (c c' : Conn)
    (code : String) (r : TokenResponse)
    → get params "code" ≡ some code
    → exchange_authorization_code app client params draw c ≡ (ok r, c')
    → IsSpent (hash_token app.platform code) c'.db
exchange-IsSpent app client params draw c c' code r given h =
    let x = exchange-Exchanged app client params draw c c' r h in
    let code_is : x.code ≡ code = cc (x.code_given, given) in
    rw code_is at (Exchanged-IsSpent app client params draw c.db c'.db r x)

-- Once a code has been redeemed, no later exchange of it succeeds while the stored codes are what
-- that redemption left: not with another client, verifier or redirect URI either.
exchange_once :
    (app : AppState) (client client' : OAuthClient) (params params' : Params)
    (draw draw' : TokenDraw) (c c' d d' : Conn) (code : String) (r r' : TokenResponse)
    → get params "code" ≡ some code
    → get params' "code" ≡ some code
    → exchange_authorization_code app client params draw c ≡ (ok r, c')
    → d.db.codes ≡ c'.db.codes
    → exchange_authorization_code app client' params' draw' d ≢ (ok r', d')
exchange_once app client client' params params' draw draw' c c' d d' code r r' given given' h same =
    exchange-spent app client' params' draw' d d' code r' given'
      (rw same (exchange-IsSpent app client params draw c c' code r given h))
