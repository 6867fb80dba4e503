-- ===== src/Tests/Replays.antt =====
-- A run of an authorization code that is presented again.
use sharp_oauth.Prelude.{
  ◌≡◌, ◌≢◌, ◌<◌, ◌+◌, true, any, arith, refl, Bool, false, String, Option, none, some, List, [],
  ◌∷◌, Result, ok, err, inl, is_none, find, ◌==◌,
}
use sharp_oauth.Error.{invalid_grant}
use sharp_oauth.Secret.{hash_token}
use sharp_oauth.Storage.{Db, AuthorizationCode, RefreshToken}
use sharp_oauth.Prelude.Rows.{In}
use sharp_oauth.OAuth.Params.{get}
use sharp_oauth.Storage.Conn.{Conn}
use sharp_oauth.Storage.Codes.{claim}
use sharp_oauth.OAuth.Token.Code.{exchange_authorization_code, check_code_bindings}
use sharp_oauth.OAuth.Token.Code.OneTime.{IsSpent}
use sharp_oauth.OAuth.Token.Code.Replay.{IsServed, exchange_replayed}
use sharp_oauth.Storage.Codes.{is_unused, use_at}
use sharp_oauth.Storage.RefreshTokens.{clashes}
use sharp_oauth.Tests.World.{
  app, client, draw, code_params, tables, serving, used_code, token_a, text_a, text_z,
}

-- The code once more, after it was used.
abbrev replay : Conn
replay = serving (tables (used_code ∷ []) (token_a ∷ []) [])

replay-IsServed : IsServed app client code_params draw replay text_a "https://app.example/cb" text_z
unfolding sharp_oauth.OAuth.Params.get sharp_oauth.OAuth.Params.lookup sharp_oauth.Prelude.is_empty
replay-IsServed = record {
  code_given = refl;
  uri_given = refl;
  verifier_given = refl;
  answers = λ n. refl;
}

spent : IsSpent (hash_token app.platform text_a) replay.db
unfolding sharp_oauth.Secret.hash_token
spent = (refl, tt)

abbrev revoked_a : RefreshToken
revoked_a = record token_a { revoked_at = some draw.now }

listed :
    In revoked_a
      (exchange_authorization_code app client code_params draw replay).1.db.refresh_tokens
unfolding sharp_oauth.OAuth.Token.Code.exchange_authorization_code sharp_oauth.Storage.Conn.◌>>=◌
    sharp_oauth.OAuth.Params.get sharp_oauth.Storage.Codes.claim
    sharp_oauth.Storage.Codes.claim_statement sharp_oauth.Storage.Codes.find_by_hash
    sharp_oauth.OAuth.Token.Code.redeem sharp_oauth.OAuth.Token.Code.refuse_replay
    sharp_oauth.Prelude.find sharp_oauth.Prelude.any sharp_oauth.Prelude.update_where
    sharp_oauth.Secret.hash_token sharp_oauth.Storage.RefreshTokens.revoke_by_authorization_code
    sharp_oauth.Storage.RefreshTokens.revoke_rows sharp_oauth.Storage.RefreshTokens.descends_from
listed = inl refl

found :
    find
      (λ (row : AuthorizationCode). row.code_hash == hash_token app.platform text_a)
      replay.db.codes
    ≡ some used_code
unfolding sharp_oauth.Prelude.find sharp_oauth.Secret.hash_token
found = refl

exchange_replayed_example :
    ((exchange_authorization_code app client code_params draw replay).0
      ≡ err (invalid_grant "authorization code has already been used"))
    × (is_none revoked_a.revoked_at ≡ false)
exchange_replayed_example =
    exchange_replayed app client code_params draw replay text_a "https://app.example/cb" text_z
      replay-IsServed used_code token_a revoked_a spent found (inl refl) refl listed refl
