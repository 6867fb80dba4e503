-- ===== src/Tests/Redemptions.antt =====
-- A run of a stored code and its redemption.
use sharp_oauth.Prelude.{
  ◌≡◌, ◌≢◌, ◌<◌, ◌+◌, true, any, arith, refl, Bool, false, String, Option, none, some, List, [],
  ◌∷◌, Result, ok, err, inl, is_none, find, ◌==◌,
}
use sharp_oauth.Secret.{hash_token}
use sharp_oauth.OAuth.Params.{get}
use sharp_oauth.Storage.Conn.{Conn}
use sharp_oauth.OAuth.Token.Response.{TokenResponse}
use sharp_oauth.OAuth.Token.Code.{exchange_authorization_code}
use sharp_oauth.Scope.{parse}
use sharp_oauth.Scope.Wire.{parse-IsWire}
use sharp_oauth.Storage.Codes.{is_unused, use_at}
use sharp_oauth.Storage.RefreshTokens.{clashes}
use sharp_oauth.OAuth.Pkce.{verify_s256}
use sharp_oauth.OAuth.Authorization.Prompt.{default}
use sharp_oauth.OAuth.Authorization.Validation.{ValidatedRequest}
use sharp_oauth.OAuth.Authorization.Decision.{AuthorizationDraw, authorization_code_ttl, new_code}
use sharp_oauth.OAuth.Token.Response.{signed_tokens}
use sharp_oauth.OAuth.Token.Code.Issued.{first_token, response_after}
use sharp_oauth.OAuth.Token.Code.Completes.{exchange_completes}
use sharp_oauth.Tests.Exchanges.{response}
use sharp_oauth.Tests.World.{
  user, session, authorization_draw, app, client, draw, code_params, tables, serving, text_a,
  text_z,
}

-- A request for both scopes, approved, its code stored, and the code redeemed.
abbrev valid : ValidatedRequest
valid = record {
  client = client;
  redirect_uri = "https://app.example/cb";
  scope = "offline_access" ∷ "openid" ∷ [];
  state = "xyz";
  code_challenge = text_z;
  nonce = none;
  prompt = default;
  max_age = none;
}

abbrev issued : AuthorizationDraw
issued = record authorization_draw { code_bytes = b'A' ∷ [] }

abbrev stored : Conn
stored = serving (tables (new_code app.platform valid user session issued ∷ []) [] [])

holds_code :
    find (is_unused (hash_token app.platform text_a)) stored.db.codes
    ≡ some (new_code app.platform valid user session issued)
unfolding sharp_oauth.Prelude.find sharp_oauth.Secret.hash_token sharp_oauth.Secret.generate_token
    sharp_oauth.OAuth.Authorization.Decision.new_code
holds_code = refl

proves : verify_s256 app.platform text_z valid.code_challenge ≡ true
unfolding sharp_oauth.OAuth.Pkce.verify_s256
proves = refl

wire : parse "offline_access openid" ≡ ok valid.scope
unfolding sharp_oauth.Scope.parse
wire = refl

params_hold :
    (get code_params "code" ≡ some text_a)
    × (get code_params "redirect_uri" ≡ some valid.redirect_uri)
    × (get code_params "code_verifier" ≡ some text_z)
unfolding sharp_oauth.OAuth.Params.get
params_hold = (refl, refl, refl)

signs :
    signed_tokens app client user.id valid.scope session.created_at valid.nonce draw.now draw.jti
    ≡ ok (record response { refresh_token = none })
unfolding sharp_oauth.Scope.to_string sharp_oauth.OAuth.Token.Response.signed_tokens
    sharp_oauth.Tokens.Access.issue sharp_oauth.Tokens.IdToken.issue sharp_oauth.Keys.sign
signs = refl

early : draw.now < issued.issued_at + authorization_code_ttl
early = omega arith

no_tokens :
    any
      (clashes (
        first_token app client
          (use_at draw.now (new_code app.platform valid user session issued))
          draw))
      stored.db.refresh_tokens
    ≡ false
unfolding sharp_oauth.Prelude.any
no_tokens = refl

exchange_completes_example :
    (exchange_authorization_code app client code_params draw stored).0
    ≡ ok (response_after app valid.scope draw (record response { refresh_token = none }))
exchange_completes_example =
    exchange_completes app valid user session issued client code_params draw stored text_a text_z
      (record response { refresh_token = none }) params_hold.0 params_hold.1 params_hold.2
      holds_code refl early proves (parse-IsWire "offline_access openid" valid.scope wire) signs
      no_tokens (λ n. refl)
