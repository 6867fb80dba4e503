-- ===== src/OAuth/Token/Code/OneTime.antt =====
-- The claim of an authorization code in an exchange (src/oauth/services/token.rs).
use sharp_oauth.Prelude.{
  ◌≡◌, refl, sym, ◌≢◌, ap, ◌∙◌, String, Option, none, some, ok, arith, Result,
}
use sharp_oauth.Prelude.Rows.{None, none-find, none-update_where, update_where-none}
use sharp_oauth.Error.{AppError, DbErr}
use sharp_oauth.Secret.{hash_token}
use sharp_oauth.Storage.{Db, Time, OAuthClient, AuthorizationCode}
use sharp_oauth.Storage.Conn.{Conn, ◌>>=◌}
use sharp_oauth.Storage.Conn.Steps.{after_or, after_begin, after_tx}
use sharp_oauth.Storage.Codes.{claim, claim_statement, is_unused, use_at}
use sharp_oauth.State.{AppState}
use sharp_oauth.OAuth.Params.{Params, get}
use sharp_oauth.OAuth.Token.Response.{TokenResponse, TokenDraw}
use sharp_oauth.OAuth.Token.Code.{exchange_authorization_code, redeem, refuse_replay}

-- No unused code has this hash.
abbrev pub IsSpent : String → Db → Type 0
IsSpent code_hash d = None (is_unused code_hash) d.codes

-- The claim spends the code, found or not.
pub claim-IsSpent :
    (code_hash : String) (now : Time) (d : Db) → IsSpent code_hash (claim code_hash now d).1
unfolding claim claim_statement
claim-IsSpent code_hash now d =
    none-update_where (is_unused code_hash) (use_at now) d.codes (λ row. ground arith)

refuse_replay-fails :
    (now : Time) (found : Option AuthorizationCode) (c c' : Conn) (r : TokenResponse)
    → refuse_replay now found c ≢ (ok r, c')
unfolding refuse_replay ◌>>=◌
refuse_replay-fails now none c c' r h =
    cc (ap (λ (o : Result AppError TokenResponse × Conn). o.0) h)
refuse_replay-fails now (some used) c c' r h = ground arith

redeem_none-fails :
    (app : AppState) (client : OAuthClient) (code_hash uri verifier : String) (draw : TokenDraw)
    (c c' : Conn) (r : TokenResponse)
    → redeem app client code_hash uri verifier draw none c ≢ (ok r, c')
unfolding redeem
redeem_none-fails app client code_hash uri verifier draw c c' r h =
    after_tx _ _ _ _ h λ found c₁ ran same rest. refuse_replay-fails draw.now found c₁ c' r rest

-- What a successful exchange went through: the claim found a row, and its redemption succeeded.
pub record Redeemed (app : AppState) (client : OAuthClient) (params : Params) (draw : TokenDraw)
    (c : Conn) (r : TokenResponse) (c' : Conn) : Type 0 where
  pub code : String
  pub redirect_uri : String
  pub code_verifier : String
  pub row : AuthorizationCode
  pub claimed : Conn
  pub code_given : get params "code" ≡ some code
  pub uri_given : get params "redirect_uri" ≡ some redirect_uri
  pub verifier_given : get params "code_verifier" ≡ some code_verifier
  pub claims : claim (hash_token app.platform code) draw.now c.db ≡ (ok (some row), claimed.tx)
  pub kept : claimed.db ≡ c.db
  pub redeems :
      redeem app client
        (hash_token app.platform code)
        redirect_uri
        code_verifier
        draw
        (some row)
        claimed
      ≡ (ok r, c')

pub exchange-Redeemed :
    (app : AppState) (client : OAuthClient) (params : Params) (draw : TokenDraw) (c : Conn)
    {r : TokenResponse} {c' : Conn}
    → exchange_authorization_code app client params draw c ≡ (ok r, c')
    → Redeemed app client params draw c r c'
unfolding exchange_authorization_code
exchange-Redeemed app client params draw c {r} {c'} h = after_or _ _ _ _ h λ code code_given h₁.
    after_or _ _ _ _ h₁ λ uri uri_given h₂. after_or _ _ _ _ h₂ λ verifier verifier_given h₃.
      after_begin _ _ _ h₃ λ c₁ opened same h₄. after_tx _ _ _ _ h₄ λ claimed c₂ claims same' h₅.
        by_claim claimed code uri verifier c₁ c₂ code_given uri_given verifier_given
          (rw (← opened) claims) (same' ∙ same) h₅
  where
    by_claim :
        (o : Option AuthorizationCode) (code uri verifier : String) (c₁ c₂ : Conn)
        → get params "code" ≡ some code
        → get params "redirect_uri" ≡ some uri
        → get params "code_verifier" ≡ some verifier
        → claim (hash_token app.platform code) draw.now c.db ≡ (ok o, c₂.tx)
        → c₂.db ≡ c.db
        → redeem app client (hash_token app.platform code) uri verifier draw o c₂ ≡ (ok r, c')
        → Redeemed app client params draw c r c'
    by_claim none code uri verifier c₁ c₂ g u v claims same h =
        absurd (redeem_none-fails app client _ uri verifier draw c₂ c' r h)
    by_claim (some row) code uri verifier c₁ c₂ g u v claims same h = record {
      code = code;
      redirect_uri = uri;
      code_verifier = verifier;
      row = row;
      claimed = c₂;
      code_given = g;
      uri_given = u;
      verifier_given = v;
      claims = claims;
      kept = same;
      redeems = h;
    }

spent-claim :
    (code_hash : String) (now : Time) (d : Db)
    → IsSpent code_hash d
    → claim code_hash now d ≡ (ok none, d)
unfolding claim claim_statement
spent-claim code_hash now d spent =
    rw
      (
        none-find (is_unused code_hash) d.codes spent,
        update_where-none (is_unused code_hash) (use_at now) d.codes spent,
      )
      refl

-- A code that is spent is never redeemed again, whatever else the request carries and whichever
-- database calls fail.
pub exchange-spent :
    (app : AppState) (client : OAuthClient) (params : Params) (draw : TokenDraw) (c c' : Conn)
    (code : String) (r : TokenResponse)
    → get params "code" ≡ some code
    → IsSpent (hash_token app.platform code) c.db
    → exchange_authorization_code app client params draw c ≢ (ok r, c')
exchange-spent app client params draw c c' code r given spent h =
    let s = exchange-Redeemed app client params draw c h in
    let same : s.code ≡ code = cc (s.code_given, given) in
    let nothing = spent-claim (hash_token app.platform s.code) draw.now c.db (rw same spent) in
    cc (ap (λ (o : Result DbErr (Option AuthorizationCode) × Db). o.0) (sym nothing ∙ s.claims))
