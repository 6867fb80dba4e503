-- ===== src/Tests/Histories.antt =====
-- Histories of requests, and forms from other sites.
use sharp_oauth.Prelude.{ℕ, ◌≡◌, ◌≢◌, ◌⊎◌, ◌*◌, refl, Bool, false, none, some, [], ◌∷◌, ok, err}
use sharp_oauth.Storage.{RefreshToken, Db, second}
use sharp_oauth.Storage.Conn.{Conn}
use sharp_oauth.OAuth.Params.{Params, get}
use sharp_oauth.OAuth.Token.Response.{TokenResponse, TokenDraw}
use sharp_oauth.OAuth.Token.Code.{exchange_authorization_code}
use sharp_oauth.OAuth.Token.Rotation.{exchange_refresh_token}
use sharp_oauth.OAuth.Token.Rotation.Failure.{Presents, IsRotated}
use sharp_oauth.Web.Http.{Headers}
use sharp_oauth.Web.Accounts.{PageDraw}
use sharp_oauth.Server
use sharp_oauth.Server.{Request, serve, Reach, opening, answered, start, later}
use sharp_oauth.Server.Forms.{IsForm, IsOwnForm, forged_form}
use sharp_oauth.Server.SpentCodes.{redeemed_for_good}
use sharp_oauth.Server.DeadFamilies.{IsElsewhere, replayed_for_good}
use sharp_oauth.Tests.Exchanges
use sharp_oauth.Tests.World.{
  app, client, draw, code_params, refresh_params, tables, serving, token_a, rotated_a, text_a,
  text_b, text_z, platform, platform-ComparesTexts, page_draw,
}

same_code : get code_params "code" ≡ some text_a
unfolding sharp_oauth.OAuth.Params.get sharp_oauth.OAuth.Params.lookup sharp_oauth.Prelude.is_empty
same_code = refl

abbrev no_headers : Headers
no_headers = record { cookies = []; authorization = none }

-- Somebody signs out in between.
abbrev signs_out : Request
signs_out = Server.logout no_headers none page_draw

abbrev working : ℕ → Bool
working n = false

abbrev next : Db → Db
next d = (serve app "dummy" signs_out (opening d working)).1.db

redeemed_for_good_example :
    exchange_authorization_code app client code_params draw
      (opening (next Exchanges.after.db) working)
    ≢ (ok Exchanges.response, Exchanges.after)
redeemed_for_good_example =
    redeemed_for_good app "dummy" client client code_params code_params draw draw Exchanges.before
      Exchanges.after Exchanges.after (next Exchanges.after.db) working text_a Exchanges.response
      Exchanges.response same_code same_code Exchanges.succeeds
      (later start (answered signs_out working tt refl))

-- A rotated token of one family, and a good token of another one.
abbrev good : RefreshToken
good = record token_a { id = 53; token_hash = text_b; family_id = 63 }

abbrev replay : Conn
replay = serving (tables [] (rotated_a ∷ good ∷ []) [])

abbrev replayed_db : Db
replayed_db = (exchange_refresh_token app client refresh_params draw replay).1.db

abbrev good_params : Params
good_params = record { entries = ("refresh_token", text_b) ∷ ("scope", "openid") ∷ [] }

abbrev late_draw : TokenDraw
late_draw = record draw { token_bytes = b'Z' ∷ []; token_id = 54 }

replay-Presents :
    Presents app client refresh_params draw replay text_a (some ("openid" ∷ [])) rotated_a
unfolding sharp_oauth.OAuth.Params.get sharp_oauth.Scope.parse sharp_oauth.Prelude.find
    sharp_oauth.Secret.hash_token
replay-Presents = record {
  raw_given = refl;
  wanted_given = refl;
  found = refl;
  answers = λ n. refl;
}

replay-rotated : IsRotated client rotated_a
replay-rotated = record { own = refl; live = refl; next = 51; rotated = refl }

abbrev late_response : TokenResponse
late_response = record {
  access_token = "jwt";
  token_type = "Bearer";
  expires_in = 900;
  scope = "openid";
  refresh_token = some text_z;
  id_token = some "jwt";
}

abbrev late : Conn
late = opening (next replayed_db) working

good_refreshes :
    exchange_refresh_token app client good_params late_draw late
    ≡ (ok late_response, (exchange_refresh_token app client good_params late_draw late).1)
unfolding sharp_oauth.OAuth.Token.Rotation.exchange_refresh_token sharp_oauth.Storage.Conn.◌>>=◌
    sharp_oauth.OAuth.Params.get sharp_oauth.Storage.RefreshTokens.find_by_hash_for_update
    sharp_oauth.Storage.RefreshTokens.mark_rotated sharp_oauth.Storage.RefreshTokens.revoke_family
    sharp_oauth.Storage.RefreshTokens.revoke_rows sharp_oauth.Storage.RefreshTokens.insert
    sharp_oauth.Prelude.find sharp_oauth.Prelude.any sharp_oauth.Prelude.update_where
    sharp_oauth.Secret.hash_token sharp_oauth.Secret.generate_token
    sharp_oauth.OAuth.Token.Rotation.answer sharp_oauth.OAuth.Token.Rotation.rotate
    sharp_oauth.OAuth.Token.Rotation.narrow sharp_oauth.OAuth.Token.Response.stored_scope
    sharp_oauth.OAuth.Token.Response.signed_tokens sharp_oauth.Scope.parse
    sharp_oauth.Scope.to_string sharp_oauth.Scope.is_subset_of sharp_oauth.Tokens.Access.issue
    sharp_oauth.Tokens.IdToken.issue sharp_oauth.Keys.sign sharp_oauth.Tokens.Refresh.issue
    sharp_oauth.Tokens.Refresh.new_row sharp_oauth.Tokens.Refresh.check_usable
    sharp_oauth.Server.serve sharp_oauth.Web.Accounts.logout sharp_oauth.Web.Accounts.guarded
    sharp_oauth.Web.Csrf.verify sharp_oauth.Web.Cookies.get
good_refreshes = refl

replayed_for_good_example : IsElsewhere app good_params (next replayed_db) 60
replayed_for_good_example =
    replayed_for_good app "dummy" client client refresh_params good_params draw late_draw replay
      (exchange_refresh_token app client good_params late_draw late).1 (next replayed_db) working
      text_a (some ("openid" ∷ [])) rotated_a late_response replay-Presents replay-rotated
      (later start (answered signs_out working tt refl)) good_refreshes

-- A sign-out that another site submits.
forged_form_example :
    ((serve app "dummy" signs_out replay).1.db ≡ replay.db) ⊎ IsOwnForm platform no_headers none
forged_form_example =
    forged_form app "dummy" signs_out no_headers none replay platform-ComparesTexts
      (IsForm.logout no_headers none page_draw)
