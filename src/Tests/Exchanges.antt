-- ===== src/Tests/Exchanges.antt =====
-- Runs of the exchange of an authorization code.
use sharp_oauth.Prelude.{
  ◌≡◌, ◌≢◌, ◌<◌, ◌+◌, true, any, arith, refl, Bool, false, String, Option, none, some, List, [],
  ◌∷◌, Result, ok, err, inl, is_none, find, ◌==◌,
}
use sharp_oauth.Error.{AppError, invalid_grant}
use sharp_oauth.Secret.{hash_token}
use sharp_oauth.Storage.{Db, AuthorizationCode, RefreshToken}
use sharp_oauth.OAuth.Params.{get}
use sharp_oauth.Storage.Conn.{Conn}
use sharp_oauth.Storage.Conn.Rollback.{RollsBack}
use sharp_oauth.Storage.Codes.{claim}
use sharp_oauth.OAuth.Token.Response.{TokenResponse}
use sharp_oauth.OAuth.Token.Code.{exchange_authorization_code, check_code_bindings}
use sharp_oauth.OAuth.Token.Code.OneTime.{IsSpent}
use sharp_oauth.OAuth.Token.Code.Success.{exchange-Exchanged, Exchanged}
use sharp_oauth.OAuth.Token.Code.Failure.{IsFault, exchange-RollsBack}
use sharp_oauth.OAuth.Token.Code.Replay.{IsServed, exchange_burns}
use sharp_oauth.OAuth.Token.Rotation.Families.{IsChained, exchange-IsChained}
use sharp_oauth.Scope.{parse}
use sharp_oauth.Storage.Codes.{is_unused, use_at}
use sharp_oauth.Storage.RefreshTokens.{clashes}
use sharp_oauth.OAuth.Pkce.{verify_s256}
use sharp_oauth.OAuth.Token.Response.{signed_tokens}
use sharp_oauth.Tests.World.{
  app, client, draw, code_params, wrong_verifier, tables, serving, fresh_code, text_a, text_b,
}

abbrev pub before : Conn
before = serving (tables (fresh_code ∷ []) [] [])

abbrev pub after : Conn
after = (exchange_authorization_code app client code_params draw before).1

abbrev pub response : TokenResponse
response = record {
  access_token = "jwt";
  token_type = "Bearer";
  expires_in = 900;
  scope = "offline_access openid";
  refresh_token = some text_b;
  id_token = some "jwt";
}

pub succeeds : exchange_authorization_code app client code_params draw before ≡ (ok response, after)
unfolding sharp_oauth.OAuth.Token.Code.exchange_authorization_code sharp_oauth.Storage.Conn.◌>>=◌
    sharp_oauth.OAuth.Params.get sharp_oauth.Storage.Codes.claim sharp_oauth.OAuth.Token.Code.redeem
    sharp_oauth.Prelude.find sharp_oauth.Prelude.any sharp_oauth.Secret.hash_token
    sharp_oauth.Secret.generate_token sharp_oauth.OAuth.Token.Code.check_code_bindings
    sharp_oauth.OAuth.Pkce.verify_s256 sharp_oauth.OAuth.Token.Code.issue_tokens
    sharp_oauth.OAuth.Token.Code.add_refresh_token sharp_oauth.OAuth.Token.Response.stored_scope
    sharp_oauth.Scope.parse sharp_oauth.Scope.to_string
    sharp_oauth.OAuth.Token.Response.signed_tokens sharp_oauth.Tokens.Access.issue
    sharp_oauth.Tokens.IdToken.issue sharp_oauth.Keys.sign sharp_oauth.Tokens.Refresh.issue
    sharp_oauth.Storage.RefreshTokens.insert
succeeds = refl

exchange-Exchanged_example : Exchanged app client code_params draw before.db after.db response
exchange-Exchanged_example =
    exchange-Exchanged app client code_params draw before after response succeeds

exchange-RollsBack_example :
    RollsBack IsFault (exchange_authorization_code app client code_params draw)
exchange-RollsBack_example = exchange-RollsBack app client code_params draw

-- A request with a verifier that does not match.
abbrev mistaken : Conn
mistaken = before

mistaken-IsServed :
    IsServed app client wrong_verifier draw mistaken text_a "https://app.example/cb" text_b
unfolding sharp_oauth.OAuth.Params.get sharp_oauth.OAuth.Params.lookup sharp_oauth.Prelude.is_empty
mistaken-IsServed = record {
  code_given = refl;
  uri_given = refl;
  verifier_given = refl;
  answers = λ n. refl;
}

abbrev claimed : Db
claimed = (claim text_a draw.now mistaken.db).1

abbrev mismatch : AppError
mismatch = invalid_grant "code_verifier does not match code_challenge"

claims :
    claim (hash_token app.platform text_a) draw.now mistaken.db
    ≡ (ok (some (record fresh_code { used_at = some draw.now })), claimed)
unfolding sharp_oauth.Storage.Codes.claim sharp_oauth.Prelude.find sharp_oauth.Secret.hash_token
claims = refl

mismatches :
    check_code_bindings app.platform
      (record fresh_code { used_at = some draw.now })
      client
      "https://app.example/cb"
      text_b
      draw.now
    ≡ err mismatch
unfolding sharp_oauth.OAuth.Token.Code.check_code_bindings sharp_oauth.OAuth.Pkce.verify_s256
mismatches = refl

exchange_burns_example :
    ((exchange_authorization_code app client wrong_verifier draw mistaken).0 ≡ err mismatch)
    × IsSpent
        (hash_token app.platform text_a)
        (exchange_authorization_code app client wrong_verifier draw mistaken).1.db
exchange_burns_example =
    exchange_burns app client wrong_verifier draw mistaken text_a "https://app.example/cb" text_b
      mistaken-IsServed (record fresh_code { used_at = some draw.now }) claimed mismatch claims
      mismatches

exchange-IsChained_example : IsChained after.db.refresh_tokens
exchange-IsChained_example =
    exchange-IsChained app client code_params draw before after response succeeds
      (λ a none_there. absurd none_there) (λ a b none_there. absurd none_there)
