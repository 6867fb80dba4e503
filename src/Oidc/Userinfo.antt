-- ===== src/Oidc/Userinfo.antt =====
-- src/oidc/services/userinfo.rs
pub mod Release
pub mod Serves
use sharp_oauth.Prelude.{
  ◌/◌, Bool, true, false, not, String, Option, none, some, List, [], ◌∷◌, ◌++◌, Result, ok_or,
  reject_if, map_err,
}
use sharp_oauth.Error.{AppError, database}
use sharp_oauth.Platform.{Platform}
use sharp_oauth.Scope.{ScopeSet, contains, openid, profile, email}
use sharp_oauth.Storage.{Time, second, User}
use sharp_oauth.Storage.Users.{find_by_id}
use sharp_oauth.Storage.Conn.{M, pure, lift, on_pool, ◌>>=◌, ◌>>◌}
use sharp_oauth.State.{AppState}
use sharp_oauth.Keys.Verify.{VerifyError}
use sharp_oauth.Tokens.Access.{verify, scopes}
use sharp_oauth.Oidc.{Json, Object, text, number, boolean}

pub data UserInfoError : Type 0 where
  invalid_token insufficient_scope : UserInfoError
  internal_error : AppError → UserInfoError

abbrev pub name_claim : Option String → Object
name_claim none = []
name_claim (some name) = ("name", text name) ∷ []

abbrev pub profile_claims : User → Bool → Object
profile_claims user false = []
profile_claims user true =
    name_claim user.display_name ++ ("updated_at", number (user.updated_at / second)) ∷ []

abbrev pub email_claims : User → Bool → Object
email_claims user false = []
email_claims user true =
    ("email", text user.email) ∷ ("email_verified", boolean user.email_verified) ∷ []

unfoldable pub claims_for : Platform → User → ScopeSet → Object
claims_for p user granted =
    ("sub", text (p.uuid_to_string user.id))
    ∷ (profile_claims user (contains granted profile) ++ email_claims user (contains granted email))

unfoldable pub userinfo : AppState → String → Time → M UserInfoError Object
userinfo app access_token now = do
  claims ← lift (
      map_err (λ (_ : VerifyError). invalid_token)
        (verify app.platform app.signing_keys app.config.issuer access_token now))
  lift (reject_if (not (contains (scopes claims) openid)) insufficient_scope)
  user_id ← lift (ok_or invalid_token (app.platform.parse_uuid claims.sub))
  found ← on_pool (λ e. internal_error (database e)) (find_by_id user_id)
  user ← lift (ok_or invalid_token found)
  pure (claims_for app.platform user (scopes claims))
