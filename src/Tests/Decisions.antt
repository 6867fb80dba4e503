-- ===== src/Tests/Decisions.antt =====
-- Runs of the decision of the authorization endpoint and of the answer to the consent page.
use sharp_oauth.Prelude.{
  ◌≡◌, refl, Bool, true, false, String, Option, none, some, List, [], ◌∷◌, Result, ok, err,
}
use sharp_oauth.Storage.{Db, User, Session, OAuthClient}
use sharp_oauth.Storage.Conn.{Conn}
use sharp_oauth.OAuth.Authorization.Prompt.{default}
use sharp_oauth.OAuth.Authorization.Request.{AuthorizationRequest}
use sharp_oauth.OAuth.Authorization.Validation.{ValidatedRequest, ErrorRedirect, redirect, validate}
use sharp_oauth.OAuth.Authorization.Decision.{
  NextStep, redirect_to_client, decide, complete_consent,
}
use sharp_oauth.OAuth.Authorization.Decision.Code.{CodeIssued, decide-CodeIssued, decide-silent}
use sharp_oauth.OAuth.Authorization.Decision.Answer.{Approved, complete_consent-Approved}
use sharp_oauth.Tests.World.{app, user, session, request, authorization_draw}
use sharp_oauth.Tests.Authorizations.{conn, valid}

abbrev decided : Conn
decided = (decide app request (some (session, user)) authorization_draw conn).1

decides :
    decide app request (some (session, user)) authorization_draw conn
    ≡ (ok (redirect_to_client "https://app.example/cb"), decided)
unfolding sharp_oauth.OAuth.Authorization.Validation.validate
    sharp_oauth.OAuth.Authorization.Validation.check_protocol
    sharp_oauth.OAuth.Authorization.Validation.check_response
    sharp_oauth.OAuth.Authorization.Validation.check_state
    sharp_oauth.OAuth.Authorization.Validation.check_scope
    sharp_oauth.OAuth.Authorization.Validation.check_code_challenge
    sharp_oauth.OAuth.Authorization.Validation.parse_u32
    sharp_oauth.OAuth.Authorization.Validation.read_digits
    sharp_oauth.OAuth.Authorization.Prompt.parse sharp_oauth.OAuth.Authorization.Prompt.add_values
    sharp_oauth.OAuth.Authorization.Prompt.reject_combined
    sharp_oauth.OAuth.Client.Registry.is_active sharp_oauth.OAuth.Client.Registry.has_redirect_uri
    sharp_oauth.OAuth.Client.Registry.allowed_scopes sharp_oauth.OAuth.Pkce.is_valid_s256_challenge
    sharp_oauth.Storage.Clients.find_by_client_id sharp_oauth.Storage.Conn.◌>>=◌
    sharp_oauth.Scope.parse sharp_oauth.Scope.from_iter sharp_oauth.Scope.is_subset_of
    sharp_oauth.Prelude.find sharp_oauth.Prelude.any sharp_oauth.OAuth.Authorization.Decision.decide
    sharp_oauth.OAuth.Authorization.Decision.decide_signed_in
    sharp_oauth.OAuth.Authorization.Decision.decide_consent
    sharp_oauth.OAuth.Authorization.Decision.needs_reauthentication
    sharp_oauth.OAuth.Authorization.Decision.issue_code
    sharp_oauth.OAuth.Authorization.Decision.redirect_with_params
    sharp_oauth.OAuth.Consent.granted_scopes sharp_oauth.Storage.Codes.insert
    sharp_oauth.Storage.Consents.find_active
decides = refl

decide-CodeIssued_example :
    (v : ValidatedRequest) × (c₁ : Conn) × (validate request conn ≡ (ok v, c₁))
    × CodeIssued app (some (session, user)) authorization_draw v conn.db decided.db
decide-CodeIssued_example =
    decide-CodeIssued app request (some (session, user)) authorization_draw conn decided
      "https://app.example/cb" decides

-- The same request, silent.
abbrev silent : AuthorizationRequest
silent = record request { prompt = some "none" }

abbrev silent_valid : ValidatedRequest
silent_valid = record valid { prompt = record default { none = true } }

silent_validates : validate silent conn ≡ (ok silent_valid, (validate silent conn).1)
unfolding sharp_oauth.OAuth.Authorization.Validation.validate
    sharp_oauth.OAuth.Authorization.Validation.check_protocol
    sharp_oauth.OAuth.Authorization.Validation.check_response
    sharp_oauth.OAuth.Authorization.Validation.check_state
    sharp_oauth.OAuth.Authorization.Validation.check_scope
    sharp_oauth.OAuth.Authorization.Validation.check_code_challenge
    sharp_oauth.OAuth.Authorization.Validation.parse_u32
    sharp_oauth.OAuth.Authorization.Validation.read_digits
    sharp_oauth.OAuth.Authorization.Prompt.parse sharp_oauth.OAuth.Authorization.Prompt.add_values
    sharp_oauth.OAuth.Authorization.Prompt.add_value
    sharp_oauth.OAuth.Authorization.Prompt.reject_combined
    sharp_oauth.OAuth.Client.Registry.is_active sharp_oauth.OAuth.Client.Registry.has_redirect_uri
    sharp_oauth.OAuth.Client.Registry.allowed_scopes sharp_oauth.OAuth.Pkce.is_valid_s256_challenge
    sharp_oauth.Storage.Clients.find_by_client_id sharp_oauth.Storage.Conn.◌>>=◌
    sharp_oauth.Scope.parse sharp_oauth.Scope.from_iter sharp_oauth.Scope.is_subset_of
    sharp_oauth.Prelude.find sharp_oauth.Prelude.any
silent_validates = refl

silent_decides : decide app silent (some (session, user)) authorization_draw conn ≡ (
  ok (redirect_to_client "https://app.example/cb"),
  (decide app silent (some (session, user)) authorization_draw conn).1,
)
unfolding sharp_oauth.OAuth.Authorization.Validation.validate
    sharp_oauth.OAuth.Authorization.Validation.check_protocol
    sharp_oauth.OAuth.Authorization.Validation.check_response
    sharp_oauth.OAuth.Authorization.Validation.check_state
    sharp_oauth.OAuth.Authorization.Validation.check_scope
    sharp_oauth.OAuth.Authorization.Validation.check_code_challenge
    sharp_oauth.OAuth.Authorization.Validation.parse_u32
    sharp_oauth.OAuth.Authorization.Validation.read_digits
    sharp_oauth.OAuth.Authorization.Prompt.parse sharp_oauth.OAuth.Authorization.Prompt.add_values
    sharp_oauth.OAuth.Authorization.Prompt.add_value
    sharp_oauth.OAuth.Authorization.Prompt.reject_combined
    sharp_oauth.OAuth.Client.Registry.is_active sharp_oauth.OAuth.Client.Registry.has_redirect_uri
    sharp_oauth.OAuth.Client.Registry.allowed_scopes sharp_oauth.OAuth.Pkce.is_valid_s256_challenge
    sharp_oauth.Storage.Clients.find_by_client_id sharp_oauth.Storage.Conn.◌>>=◌
    sharp_oauth.Scope.parse sharp_oauth.Scope.from_iter sharp_oauth.Scope.is_subset_of
    sharp_oauth.Prelude.find sharp_oauth.Prelude.any sharp_oauth.OAuth.Authorization.Decision.decide
    sharp_oauth.OAuth.Authorization.Decision.decide_signed_in
    sharp_oauth.OAuth.Authorization.Decision.decide_consent
    sharp_oauth.OAuth.Authorization.Decision.needs_reauthentication
    sharp_oauth.OAuth.Authorization.Decision.issue_code
    sharp_oauth.OAuth.Authorization.Decision.redirect_with_params
    sharp_oauth.OAuth.Consent.granted_scopes sharp_oauth.Storage.Codes.insert
    sharp_oauth.Storage.Consents.find_active
silent_decides = refl

decide-silent_example :
    (url : String) × (redirect_to_client "https://app.example/cb" ≡ redirect_to_client url)
decide-silent_example =
    decide-silent app silent (some (session, user)) authorization_draw conn (validate silent conn).1
      (decide app silent (some (session, user)) authorization_draw conn).1 silent_valid
      (redirect_to_client "https://app.example/cb") silent_validates refl silent_decides

abbrev answered : Conn
answered = (complete_consent app request true session user authorization_draw conn).1

answers :
    complete_consent app request true session user authorization_draw conn
    ≡ (ok "https://app.example/cb", answered)
unfolding sharp_oauth.OAuth.Authorization.Validation.validate
    sharp_oauth.OAuth.Authorization.Validation.check_protocol
    sharp_oauth.OAuth.Authorization.Validation.check_response
    sharp_oauth.OAuth.Authorization.Validation.check_state
    sharp_oauth.OAuth.Authorization.Validation.check_scope
    sharp_oauth.OAuth.Authorization.Validation.check_code_challenge
    sharp_oauth.OAuth.Authorization.Validation.parse_u32
    sharp_oauth.OAuth.Authorization.Validation.read_digits
    sharp_oauth.OAuth.Authorization.Prompt.parse sharp_oauth.OAuth.Authorization.Prompt.add_values
    sharp_oauth.OAuth.Authorization.Prompt.reject_combined
    sharp_oauth.OAuth.Client.Registry.is_active sharp_oauth.OAuth.Client.Registry.has_redirect_uri
    sharp_oauth.OAuth.Client.Registry.allowed_scopes sharp_oauth.OAuth.Pkce.is_valid_s256_challenge
    sharp_oauth.Storage.Clients.find_by_client_id sharp_oauth.Storage.Conn.◌>>=◌
    sharp_oauth.Scope.parse sharp_oauth.Scope.from_iter sharp_oauth.Scope.is_subset_of
    sharp_oauth.Prelude.find sharp_oauth.Prelude.any
    sharp_oauth.OAuth.Authorization.Decision.issue_code
    sharp_oauth.OAuth.Authorization.Decision.redirect_with_params
    sharp_oauth.OAuth.Authorization.Decision.complete_consent
    sharp_oauth.OAuth.Authorization.Decision.answer_consent sharp_oauth.OAuth.Consent.granted_scopes
    sharp_oauth.OAuth.Consent.grant sharp_oauth.Storage.Codes.insert
    sharp_oauth.Storage.Consents.find_active sharp_oauth.Storage.Consents.upsert
answers = refl

complete_consent-Approved_example :
    (true ≡ true)
    × (v : ValidatedRequest) × (c₁ : Conn) × (validate request conn ≡ (ok v, c₁))
    × Approved app v user session authorization_draw conn.db answered.db
complete_consent-Approved_example =
    complete_consent-Approved app request true session user authorization_draw conn answered
      "https://app.example/cb" answers
