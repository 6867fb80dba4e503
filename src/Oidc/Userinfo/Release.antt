-- ===== src/Oidc/Userinfo/Release.antt =====
-- What the userinfo endpoint tells, and to whom.
use sharp_oauth.Prelude.{
  ◌≡◌, refl, sym, ap, ◌∙◌, Bool, true, false, ◌||◌, String, Option, none, some, List, [], ◌∷◌, ◌++◌,
  Result, ok, err, arith, ◌==◌, find, eqb, All, if◌then◌else◌, map_err,
}
use sharp_oauth.Prelude.Rows.{In, find-In, find-passes}
use sharp_oauth.Error.{DbErr}
use sharp_oauth.Platform.{Platform, AccessTokenClaims}
use sharp_oauth.Scope.{ScopeSet, contains, openid, profile, email}
use sharp_oauth.State.{AppState}
use sharp_oauth.Storage.{Time, Db, User}
use sharp_oauth.Storage.Users.{find_by_id}
use sharp_oauth.Storage.Conn.{Conn, pure}
use sharp_oauth.Storage.Conn.Steps.{after_lift, after_or, after_pool}
use sharp_oauth.Tokens.Access.{verify, scopes}
use sharp_oauth.Keys.Verify.{VerifyError}
use sharp_oauth.Oidc.{Object}
use sharp_oauth.Oidc.Userinfo.{
  UserInfoError, invalid_token, name_claim, profile_claims, email_claims, claims_for, userinfo,
}

-- OpenID Connect Core §5.4: the scope that a claim needs.
abbrev pub is_permitted : ScopeSet → String → Bool
is_permitted granted name =
    if name == "sub"
    then true
    else if name == "name" || name == "updated_at"
    then contains granted profile
    else if name == "email" || name == "email_verified"
    then contains granted email
    else false

abbrev pub Permitted : ScopeSet → Object → Type 0
Permitted granted = All (λ claim. is_permitted granted claim.0 ≡ true)

All-append : {A : Type 0} (P : A → Type 0) (xs ys : List A) → All P xs → All P ys → All P (xs ++ ys)
All-append P [] ys h k = k
All-append P (x ∷ xs) ys h k = (h.0, All-append P xs ys h.1 k)

profile-Permitted :
    (granted : ScopeSet) (user : User) (shown : Bool)
    → contains granted profile ≡ shown
    → Permitted granted (profile_claims user shown)
profile-Permitted granted user false h = tt
profile-Permitted granted user true h =
    All-append _ (name_claim user.display_name) _ (named user.display_name) (h, tt)
  where
    named : (name : Option String) → Permitted granted (name_claim name)
    named none = tt
    named (some name) = (h, tt)

email-Permitted :
    (granted : ScopeSet) (user : User) (shown : Bool)
    → contains granted email ≡ shown
    → Permitted granted (email_claims user shown)
email-Permitted granted user false h = tt
email-Permitted granted user true h = (h, (h, tt))

claims_for-Permitted :
    (p : Platform) (user : User) (granted : ScopeSet)
    → Permitted granted (claims_for p user granted)
unfolding claims_for
claims_for-Permitted p user granted = (
  refl,
  All-append _ (profile_claims user (contains granted profile)) _
      (profile-Permitted granted user _ refl) (email-Permitted granted user _ refl),
)

-- An answer with claims.
pub record Released (app : AppState) (d : Db) (access_token : String) (now : Time)
    (released : Object) : Type 0 where
  pub claims : AccessTokenClaims
  pub user : User
  pub verified : verify app.platform app.signing_keys app.config.issuer access_token now ≡ ok claims
  pub asked : contains (scopes claims) openid ≡ true
  pub subject : app.platform.parse_uuid claims.sub ≡ some user.id
  pub listed : In user d.users
  pub permitted : Permitted (scopes claims) released
  pub complete : released ≡ claims_for app.platform user (scopes claims)

verified_claims :
    (r : Result VerifyError AccessTokenClaims) {claims : AccessTokenClaims}
    → map_err (λ (_ : VerifyError). invalid_token) r ≡ ok claims
    → r ≡ ok claims
verified_claims (ok a) h = ground arith
verified_claims (err e) h = ground arith

-- Claims are released only for an access token that verifies and was issued with `openid`; they
-- are those of the stored user that the token names, and each of them only with the scope that it
-- needs. No table changes.
pub userinfo-Released :
    (app : AppState) (access_token : String) (now : Time) (c c' : Conn) (released : Object)
    → userinfo app access_token now c ≡ (ok released, c')
    → Released app c.db access_token now released × (c'.db ≡ c.db)
unfolding userinfo find_by_id pure
userinfo-Released app access_token now c c' released h = after_lift _ c _ h λ claims verified h₁.
    after_lift _ c _ h₁ λ _ asked h₂. after_or _ c _ _ h₂ λ user_id subject h₃.
      after_pool _ c _ _ h₃ λ found c₁ run h₄. after_or _ c₁ _ _ h₄ λ user known fin.
        let hit : find (λ (row : User). eqb row.id user_id) c.db.users ≡ some user =
          ground (arith, run) in
        let is_id : user.id ≡ user_id = ground (arith, find-passes _ _ user hit) in
        let is_released : claims_for app.platform user (scopes claims) ≡ released =
          ground (arith, fin) in
        (
          record {
            claims = claims;
            user = user;
            verified = verified_claims _ verified;
            asked = ground arith;
            subject = subject ∙ ap some (sym is_id);
            listed = find-In _ _ user hit;
            permitted = rw (← is_released) (claims_for-Permitted app.platform user (scopes claims));
            complete = sym is_released;
          },
          ap (λ (o : Result UserInfoError Object × Conn). o.1.db) (sym fin)
              ∙ ap (λ (o : Result DbErr (Option User) × Db). o.1) (sym run),
        )
