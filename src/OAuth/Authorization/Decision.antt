-- ===== src/OAuth/Authorization/Decision.antt =====
-- What happens next with a valid request: sign-in, consent, or a code for the client.
pub mod Issue
pub mod Code
pub mod Answer
use Prim.Native.String
use sharp_oauth.Prelude.{
  ℕ, ◌+◌, ◌-◌, ◌*◌, ◌/◌, Bool, true, false, not, ◌&&◌, ◌||◌, String, Option, none, some, List, [],
  ◌∷◌, Result, ok, err, ok_or, ltb, is_some_and, keep_if, if◌then◌else◌,
}
use sharp_oauth.Error.{AppError, database, internal}
use sharp_oauth.Platform.{Platform, Bytes}
use sharp_oauth.Secret.{generate_token, hash_token}
use sharp_oauth.Scope.{ScopeSet, is_subset_of, to_string}
use sharp_oauth.Storage.{Uuid, Time, second, User, Session, AuthorizationCode, ScopeDescription}
use sharp_oauth.Storage.Codes
use sharp_oauth.Storage.Scopes.{find_by_names}
use sharp_oauth.Storage.Conn.{M, pure, throw, lift, on_pool, convert, ◌>>=◌, ◌>>◌}
use sharp_oauth.State.{AppState}
use sharp_oauth.OAuth.Consent.{granted_scopes, grant}
use sharp_oauth.OAuth.Params.{Pairs}
use sharp_oauth.OAuth.Pkce.{s256}
use sharp_oauth.OAuth.Authorization.Request.{
  AuthorizationRequest, without_reauthentication, to_path,
}
use sharp_oauth.OAuth.Authorization.Validation.{
  ValidatedRequest, ErrorRedirect, AuthorizationError, internal_error, from_db, error, validate,
}

abbrev pub authorization_code_ttl : ℕ
authorization_code_ttl = 60 * second

pub data NextStep : Type 0 where
  sign_in : String → NextStep
  ask_consent : ValidatedRequest → User → List ScopeDescription → NextStep
  redirect_to_client : String → NextStep

-- What a request draws: the clocks of `decide`, `grant` and `issue_code`, two ids and a code.
pub record AuthorizationDraw : Type 0 where
  pub now : Time
  pub granted_at : Time
  pub issued_at : Time
  pub consent_id : Uuid
  pub code_id : Uuid
  pub code_bytes : Bytes

unfoldable pub redirect_with_params : Platform → String → Pairs → Result AppError String
redirect_with_params p redirect_uri params = elim (p.parse_url redirect_uri) [
  | none ↦ err internal
  | some url ↦ ok (p.extend_query url params)
]

abbrev state_pair : Option String → Pairs → Pairs
state_pair none pairs = pairs
state_pair (some state) pairs = ("state", state) ∷ pairs

-- `ErrorRedirect::to_url`.
unfoldable pub to_url : Platform → ErrorRedirect → String → Result AppError String
to_url p self issuer = redirect_with_params p self.redirect_uri (
    ("error", self.error)
    ∷ ("error_description", self.description)
    ∷ state_pair self.state (("iss", issuer) ∷ []))

-- `num_seconds` of a negative age is at most 0, which no `max_age` is below.
unfoldable pub needs_reauthentication : ValidatedRequest → Session → Time → Bool
needs_reauthentication request session now =
    request.prompt.login
    || is_some_and request.max_age (λ max_age. ltb max_age ((now - session.created_at) / second))

-- The row that `issue_code` stores.
unfoldable pub new_code :
    Platform → ValidatedRequest → User → Session → AuthorizationDraw → AuthorizationCode
new_code p request user session draw = record {
  id = draw.code_id;
  code_hash = hash_token p (generate_token p draw.code_bytes);
  client_id = request.client.id;
  user_id = user.id;
  redirect_uri = request.redirect_uri;
  scope = to_string request.scope;
  code_challenge = request.code_challenge;
  code_challenge_method = s256;
  nonce = request.nonce;
  auth_time = session.created_at;
  expires_at = draw.issued_at + authorization_code_ttl;
  created_at = draw.issued_at;
  used_at = none;
}

unfoldable pub issue_code :
    AppState → ValidatedRequest → User → Session → AuthorizationDraw → M AppError String
issue_code app request user session draw = do
  on_pool database (Codes.insert (new_code app.platform request user session draw))
  lift (
      redirect_with_params app.platform request.redirect_uri (
        ("code", generate_token app.platform draw.code_bytes)
        ∷ ("state", request.state)
        ∷ ("iss", app.config.issuer)
        ∷ []))

-- A consent that covers every scope of the request.
abbrev pub covers : ValidatedRequest → Option ScopeSet → Bool
covers request granted = is_some_and granted (λ scopes. is_subset_of request.scope scopes)

-- The second half of `decide`: a user is signed in.
unfoldable pub decide_consent :
    AppState
    → ValidatedRequest
    → Session
    → User
    → AuthorizationDraw
    → Option ScopeSet
    → M AuthorizationError NextStep
decide_consent app validated session user draw granted =
    if covers validated granted && not validated.prompt.consent
    then (do
      url ← convert internal_error (issue_code app validated user session draw)
      pure (redirect_to_client url))
    else if validated.prompt.none
    then throw (error validated "consent_required" "the user has not approved these scopes")
    else (do
      scopes ← on_pool from_db (find_by_names validated.scope)
      pure (ask_consent validated user scopes))

-- The match on the session that is still good for the request.
unfoldable pub decide_signed_in :
    AppState
    → AuthorizationRequest
    → ValidatedRequest
    → AuthorizationDraw
    → Option (Session × User)
    → M AuthorizationError NextStep
decide_signed_in app request validated draw none =
    if validated.prompt.none
    then throw (error validated "login_required" "the user is not signed in")
    else pure (sign_in (to_path app.platform (without_reauthentication request)))
decide_signed_in app request validated draw (some (session, user)) = do
  granted ← convert internal_error (granted_scopes user.id validated.client.id)
  decide_consent app validated session user draw granted

unfoldable pub decide :
    AppState
    → AuthorizationRequest
    → Option (Session × User)
    → AuthorizationDraw
    → M AuthorizationError NextStep
decide app request signed_in draw = do
  validated ← validate request
  decide_signed_in app request validated draw
      (keep_if (λ pair. not (needs_reauthentication validated pair.0 draw.now)) signed_in)

-- The rest of `complete_consent`, by the user's answer.
unfoldable pub answer_consent :
    AppState
    → ValidatedRequest
    → Session
    → User
    → AuthorizationDraw
    → Bool
    → M AuthorizationError String
answer_consent app validated session user draw false =
    throw (error validated "access_denied" "the user denied the request")
answer_consent app validated session user draw true = do
  convert internal_error
      (grant user.id validated.client.id validated.scope draw.consent_id draw.granted_at)
  convert internal_error (issue_code app validated user session draw)

unfoldable pub complete_consent :
    AppState
    → AuthorizationRequest
    → Bool
    → Session
    → User
    → AuthorizationDraw
    → M AuthorizationError String
complete_consent app request approved session user draw = do
  validated ← validate request
  answer_consent app validated session user draw approved
