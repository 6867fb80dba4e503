-- ===== src/OAuth/Token/Code/Completes.antt =====
-- From the code that src/oauth/services/authorization.rs stores to its exchange in token.rs.
use sharp_oauth.Prelude.{
  ℕ, ◌+◌, ◌<◌, ◌≡◌, refl, true, false, String, some, ok, arith, Bool-cases, inl, inr, find, any,
  eq_iff,
}
use sharp_oauth.Secret.{hash_token}
use sharp_oauth.Scope.{ScopeSet, offline_access, contains}
use sharp_oauth.Scope.Wire.{IsWire, parse-to_string}
use sharp_oauth.Storage.{User, Session, OAuthClient, AuthorizationCode}
use sharp_oauth.Storage.Conn.{Conn, ◌>>=◌}
use sharp_oauth.Storage.Codes.{claim, is_unused, use_at}
use sharp_oauth.Storage.RefreshTokens
use sharp_oauth.Storage.RefreshTokens.{clashes}
use sharp_oauth.State.{AppState}
use sharp_oauth.Tokens.Refresh.{issue}
use sharp_oauth.OAuth.Params.{Params, get}
use sharp_oauth.OAuth.Pkce.{verify_s256}
use sharp_oauth.OAuth.Authorization.Validation.{ValidatedRequest}
use sharp_oauth.OAuth.Authorization.Decision.{AuthorizationDraw, authorization_code_ttl, new_code}
use sharp_oauth.OAuth.Token.Response.{TokenResponse, TokenDraw, signed_tokens, stored_scope}
use sharp_oauth.OAuth.Token.Code.{
  check_code_bindings, exchange_authorization_code, redeem, issue_tokens, add_refresh_token,
}
use sharp_oauth.OAuth.Token.Code.Issued.{first_token, response_after}

redeem-succeeds :
    (app : AppState) (client : OAuthClient) (code_hash uri verifier : String) (draw : TokenDraw)
    (row : AuthorizationCode) (c : Conn) (scope : ScopeSet) (signed : TokenResponse)
    → ((n : ℕ) → c.fails n ≡ false)
    → check_code_bindings app.platform row client uri verifier draw.now ≡ ok tt
    → stored_scope row.scope ≡ ok scope
    → signed_tokens app client row.user_id scope row.auth_time row.nonce draw.now draw.jti
      ≡ ok signed
    → any (clashes (first_token app client row draw)) c.tx.refresh_tokens ≡ false
    → (redeem app client code_hash uri verifier draw (some row) c).0
      ≡ ok (response_after app scope draw signed)
unfolding redeem issue_tokens add_refresh_token issue RefreshTokens.insert ◌>>=◌
redeem-succeeds app client code_hash uri verifier draw row c scope signed answers checked stored
      signs free =
    elim (Bool-cases (contains scope offline_access)) [
      | inl offline ↦ rw (checked, stored, signs, offline, answers, free, answers) refl
      | inr online ↦ rw (checked, stored, signs, online, answers) refl
    ]

found-claim :
    (code_hash : String) (now : ℕ) (row : AuthorizationCode) (c : Conn)
    → find (is_unused code_hash) c.db.codes ≡ some row
    → claim code_hash now c.db ≡ (ok (some (use_at now row)), (claim code_hash now c.db).1)
unfolding claim
found-claim code_hash now row c found = rw found refl

bindings-hold :
    (app : AppState) (v : ValidatedRequest) (user : User) (session : Session)
    (issued : AuthorizationDraw) (client : OAuthClient) (verifier : String) (now : ℕ)
    → v.client.id ≡ client.id
    → now < issued.issued_at + authorization_code_ttl
    → verify_s256 app.platform verifier v.code_challenge ≡ true
    → check_code_bindings app.platform
        (use_at now (new_code app.platform v user session issued))
        client
        v.redirect_uri
        verifier
        now
      ≡ ok tt
unfolding check_code_bindings new_code
bindings-hold app v user session issued client verifier now same early proven =
    ground (arith, eq_iff v.redirect_uri v.redirect_uri)

-- The client that a code was stored for can redeem it: with the code, the redirect URI and the
-- verifier of its request, before the code expires, on a database that answers every call, when
-- signing works and the drawn refresh token is new, the exchange answers with tokens for the
-- requested scope.
pub exchange_completes :
    (app : AppState) (v : ValidatedRequest) (user : User) (session : Session)
    (issued : AuthorizationDraw) (client : OAuthClient) (params : Params) (draw : TokenDraw)
    (c : Conn) (code verifier : String) (signed : TokenResponse)
    → get params "code" ≡ some code
    → get params "redirect_uri" ≡ some v.redirect_uri
    → get params "code_verifier" ≡ some verifier
    → find (is_unused (hash_token app.platform code)) c.db.codes
      ≡ some (new_code app.platform v user session issued)
    → v.client.id ≡ client.id
    → draw.now < issued.issued_at + authorization_code_ttl
    → verify_s256 app.platform verifier v.code_challenge ≡ true
    → IsWire v.scope
    → signed_tokens app client user.id v.scope session.created_at v.nonce draw.now draw.jti
      ≡ ok signed
    → any
        (clashes (
          first_token app client
            (use_at draw.now (new_code app.platform v user session issued))
            draw))
        c.db.refresh_tokens
      ≡ false
    → ((n : ℕ) → c.fails n ≡ false)
    → (exchange_authorization_code app client params draw c).0
      ≡ ok (response_after app v.scope draw signed)
unfolding exchange_authorization_code stored_scope new_code claim ◌>>=◌
exchange_completes app v user session issued client params draw c code verifier signed code_given
      uri_given verifier_given found same early proven wire signs free answers =
    rw (code_given, uri_given, verifier_given, answers, answers, found)
      (redeem-succeeds app client (hash_token app.platform code) v.redirect_uri verifier draw
        (use_at draw.now (new_code app.platform v user session issued)) _ v.scope signed answers
        (bindings-hold app v user session issued client verifier draw.now same early proven)
        (rw (parse-to_string v.scope wire) refl) signs free)
