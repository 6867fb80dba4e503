-- ===== src/Tests/Refreshes.antt =====
-- Runs of the refresh and of the revocation of refresh tokens.
use sharp_oauth.Prelude.{
  ℕ, ◌≡◌, ◌↔◌, ◌<◌, ◌*◌, refl, sym, ap, ◌∙◌, Bool, true, false, String, Option, none, some, List,
  [], ◌∷◌, Result, ok, err, inl, inr, is_none,
}
use sharp_oauth.Prelude.Rows.{In}
use sharp_oauth.Scope.{ScopeSet, is_subset_of, to_string}
use sharp_oauth.Storage.{RefreshToken, second}
use sharp_oauth.Storage.Conn.{Conn}
use sharp_oauth.Storage.Conn.Rollback.{RollsBack}
use sharp_oauth.Tokens.Refresh.{check_usable, check_usable_iff, already_rotated}
use sharp_oauth.OAuth.Params.{Pairs}
use sharp_oauth.OAuth.Token.Response.{TokenResponse, stored_scope}
use sharp_oauth.OAuth.Token.Rotation.{exchange_refresh_token}
use sharp_oauth.OAuth.Token.Rotation.Success.{Narrowed, refresh_narrows}
use sharp_oauth.OAuth.Token.Rotation.Failure.{
  IsOther, IsRotated, replayed, Presents, refresh-RollsBack, refresh_replayed,
}
use sharp_oauth.OAuth.Token.Rotation.Families.{IsChained, refresh-IsChained}
use sharp_oauth.OAuth.Token.Endpoint.{handle_revocation}
use sharp_oauth.OAuth.Token.Endpoint.Revocation.{Revocation, handle_revocation-Revocation}
use sharp_oauth.Tests.World.{
  app, client, draw, refresh_params, tables, serving, token_a, rotated_a, token_b, text_a, text_b,
  platform-ComparesTexts,
}

abbrev before : Conn
before = serving (tables [] (token_a ∷ []) [])

abbrev after : Conn
after = (exchange_refresh_token app client refresh_params draw before).1

abbrev response : TokenResponse
response = record {
  access_token = "jwt";
  token_type = "Bearer";
  expires_in = 900;
  scope = "openid";
  refresh_token = some text_b;
  id_token = some "jwt";
}

succeeds : exchange_refresh_token app client refresh_params draw before ≡ (ok response, after)
unfolding sharp_oauth.OAuth.Token.Rotation.exchange_refresh_token sharp_oauth.Storage.Conn.◌>>=◌
    sharp_oauth.OAuth.Params.get sharp_oauth.Storage.RefreshTokens.find_by_hash_for_update
    sharp_oauth.Storage.RefreshTokens.mark_rotated sharp_oauth.Storage.RefreshTokens.insert
    sharp_oauth.Prelude.find sharp_oauth.Prelude.any sharp_oauth.Secret.hash_token
    sharp_oauth.Secret.generate_token sharp_oauth.OAuth.Token.Rotation.answer
    sharp_oauth.OAuth.Token.Rotation.rotate sharp_oauth.OAuth.Token.Rotation.narrow
    sharp_oauth.OAuth.Token.Response.stored_scope sharp_oauth.OAuth.Token.Response.signed_tokens
    sharp_oauth.Scope.parse sharp_oauth.Scope.to_string sharp_oauth.Scope.is_subset_of
    sharp_oauth.Tokens.Access.issue sharp_oauth.Tokens.IdToken.issue sharp_oauth.Keys.sign
    sharp_oauth.Tokens.Refresh.issue sharp_oauth.Tokens.Refresh.new_row
    sharp_oauth.Tokens.Refresh.check_usable
succeeds = refl

refresh_narrows_example : Narrowed app refresh_params before.db response
refresh_narrows_example =
    refresh_narrows app client refresh_params draw before after response succeeds

chained : IsChained (token_a ∷ [])
chained a b (inl at_a) (inl at_b) family open_a open_b =
    ap (λ (x : RefreshToken). x.id) (sym at_a ∙ at_b)
chained a b (inr x) in_b family open_a open_b = absurd x
chained a b (inl at_a) (inr x) family open_a open_b = absurd x

refresh-IsChained_example : IsChained after.db.refresh_tokens
refresh-IsChained_example =
    refresh-IsChained app client refresh_params draw before after response succeeds chained

refresh-RollsBack_example :
    RollsBack IsOther (exchange_refresh_token app client refresh_params draw)
refresh-RollsBack_example = refresh-RollsBack app client refresh_params draw

-- The rotated token presented again, after its successor was issued.
abbrev replay : Conn
replay = serving (tables [] (rotated_a ∷ token_b ∷ []) [])

replay-Presents :
    Presents app client refresh_params draw replay text_a (some ("openid" ∷ [])) rotated_a
unfolding sharp_oauth.OAuth.Params.get sharp_oauth.Prelude.find sharp_oauth.Secret.hash_token
    sharp_oauth.Scope.parse
replay-Presents = record {
  raw_given = refl;
  wanted_given = refl;
  found = refl;
  answers = λ n. refl;
}

used : IsRotated client rotated_a
used = record { own = refl; live = refl; next = 51; rotated = refl }

abbrev revoked_b : RefreshToken
revoked_b = record token_b { revoked_at = some draw.now }

listed :
    In revoked_b (exchange_refresh_token app client refresh_params draw replay).1.db.refresh_tokens
unfolding sharp_oauth.OAuth.Token.Rotation.exchange_refresh_token sharp_oauth.Storage.Conn.◌>>=◌
    sharp_oauth.OAuth.Params.get sharp_oauth.Storage.RefreshTokens.find_by_hash_for_update
    sharp_oauth.Storage.RefreshTokens.revoke_family sharp_oauth.Storage.RefreshTokens.revoke_rows
    sharp_oauth.Prelude.find sharp_oauth.Prelude.update_where sharp_oauth.Secret.hash_token
    sharp_oauth.OAuth.Token.Rotation.answer sharp_oauth.Scope.parse
    sharp_oauth.Tokens.Refresh.check_usable
listed = inr (inl refl)

refresh_replayed_example :
    ((exchange_refresh_token app client refresh_params draw replay).0 ≡ err replayed)
    × (is_none revoked_b.revoked_at ≡ false)
refresh_replayed_example =
    refresh_replayed app client refresh_params draw replay text_a (some ("openid" ∷ [])) rotated_a
      replay-Presents used revoked_b listed refl

-- A revocation by the token's own client.
abbrev revocation : Pairs
revocation = ("client_id", "client") ∷ ("token", text_a) ∷ []

abbrev revoked_after : Conn
revoked_after = (handle_revocation app none revocation draw.now replay).1

revokes : handle_revocation app none revocation draw.now replay ≡ (ok tt, revoked_after)
unfolding sharp_oauth.OAuth.Token.Endpoint.handle_revocation
    sharp_oauth.OAuth.Token.Endpoint.revoke_found sharp_oauth.OAuth.Params.from_pairs
    sharp_oauth.OAuth.Params.get sharp_oauth.OAuth.Client.Credentials.extract_credentials
    sharp_oauth.OAuth.Client.Credentials.basic_credentials
    sharp_oauth.OAuth.Client.Credentials.authenticate
    sharp_oauth.OAuth.Client.Credentials.secret_matches
    sharp_oauth.OAuth.Client.Registry.is_confidential sharp_oauth.OAuth.Client.Registry.is_active
    sharp_oauth.Secret.hash_token sharp_oauth.Storage.Clients.find_by_client_id
    sharp_oauth.Storage.RefreshTokens.find_by_hash sharp_oauth.Storage.RefreshTokens.revoke_family
    sharp_oauth.Storage.RefreshTokens.revoke_rows sharp_oauth.Storage.Conn.◌>>=◌
    sharp_oauth.Prelude.find
revokes = refl

handle_revocation-Revocation_example :
    Revocation app none revocation draw.now replay.db revoked_after.db
handle_revocation-Revocation_example =
    handle_revocation-Revocation app none revocation draw.now replay revoked_after
      platform-ComparesTexts revokes
