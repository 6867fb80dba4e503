-- ===== src/OAuth/Authorization/Validation/Success.antt =====
-- What an authorization request that passes validation satisfies.
use sharp_oauth.Prelude.{
  ◌≡◌, ◌≤◌, refl, sym, ap, ◌∙◌, true, false, String, len, Option, none, some, Option-cases,
  Result-cases, inl, inr, is_some_and, Result, ok, arith, ◌==◌, eq_iff,
}
use sharp_oauth.Error.{DbErr}
use sharp_oauth.Scope
use sharp_oauth.Scope.{ScopeSet, is_subset_of}
use sharp_oauth.Storage.{Db, OAuthClient}
use sharp_oauth.Storage.Conn.{Conn}
use sharp_oauth.Storage.Conn.Steps.{after_or, after_pool, after_lift, lift-ok}
use sharp_oauth.Storage.Clients.{find_by_client_id}
use sharp_oauth.OAuth.Pkce.{s256, is_valid_s256_challenge}
use sharp_oauth.OAuth.Client.Registry.{allowed_scopes}
use sharp_oauth.OAuth.Authorization.Prompt
use sharp_oauth.OAuth.Authorization.Request.{AuthorizationRequest}
use sharp_oauth.OAuth.Authorization.Validation.{
  ValidatedRequest, check_response, check_state, check_scope, check_code_challenge, check_protocol,
  validate, max_state_len, parse_max_age,
}
use sharp_oauth.OAuth.Authorization.Validation.Redirects.{IsRegistered, found_active}

-- The checks of the second phase.
pub record IsSound (request : AuthorizationRequest) (v : ValidatedRequest) : Type 0 where
  pub no_request_object : request.has_request_object ≡ false
  pub no_request_uri : request.has_request_uri ≡ false
  pub code_flow : request.response_type ≡ some "code"
  pub state_given : request.state ≡ some v.state
  pub state_short : len v.state ≤ max_state_len
  pub scopes : (raw : String) × (request.scope ≡ some raw) × (Scope.parse raw ≡ ok v.scope)
  pub allowed : is_subset_of v.scope (allowed_scopes v.client) ≡ true
  pub challenge_given : request.code_challenge ≡ some v.code_challenge
  pub method : request.code_challenge_method ≡ some s256
  pub challenge : is_valid_s256_challenge v.code_challenge ≡ true
  pub prompt : Prompt.parse request.prompt ≡ ok v.prompt
  pub max_age : parse_max_age request.max_age ≡ some v.max_age

check_response-ok :
    (request : AuthorizationRequest) (uri : String)
    → check_response request uri ≡ ok tt
    → (request.has_request_object ≡ false)
      × (request.has_request_uri ≡ false)
      × (request.response_type ≡ some "code")
unfolding check_response
check_response-ok request uri h = elim (Option-cases request.response_type) [
  | inl missing ↦ absurd (ground arith)
  | inr (kind, given) ↦
      (ground arith, ground arith, given ∙ ap some ((eq_iff kind "code").0 (ground arith)))
]

check_state-ok :
    (request : AuthorizationRequest) (uri state : String)
    → check_state request uri ≡ ok state
    → (request.state ≡ some state) × (len state ≤ max_state_len)
unfolding check_state
check_state-ok request uri state h = (ground arith, ground arith)

check_scope-ok :
    (request : AuthorizationRequest) (client : OAuthClient) (uri : String) (scope : ScopeSet)
    → check_scope request client uri ≡ ok scope
    → ((raw : String) × (request.scope ≡ some raw) × (Scope.parse raw ≡ ok scope))
      × (is_subset_of scope (allowed_scopes client) ≡ true)
unfolding check_scope
check_scope-ok request client uri scope h = elim (Option-cases request.scope) [
  | inl missing ↦ absurd (ground arith)
  | inr (raw, given) ↦ elim (Result-cases (Scope.parse raw)) [
    | inl (parsed, reads) ↦
        let same : parsed ≡ scope = ground arith in
        ((raw, given, reads ∙ ap ok same), rw (← same) (ground arith))
    | inr (e, malformed) ↦ absurd (ground arith)
  ]
]

s256_only : (o : Option String) → is_some_and o (λ method. method == s256) ≡ true → o ≡ some s256
s256_only none h = cc
s256_only (some method) h = ap some ((eq_iff method s256).0 h)

check_code_challenge-ok :
    (request : AuthorizationRequest) (uri challenge : String)
    → check_code_challenge request uri ≡ ok challenge
    → (request.code_challenge ≡ some challenge)
      × (request.code_challenge_method ≡ some s256)
      × (is_valid_s256_challenge challenge ≡ true)
unfolding check_code_challenge
check_code_challenge-ok request uri challenge h =
    (ground arith, s256_only request.code_challenge_method (ground arith), ground arith)

check_protocol-ok :
    (request : AuthorizationRequest) (client : OAuthClient) (uri : String) (v : ValidatedRequest)
    → check_protocol request client uri ≡ ok v
    → (v.client ≡ client) × (v.redirect_uri ≡ uri) × IsSound request v
unfolding check_protocol
check_protocol-ok request client uri v h =
    let is_client : v.client ≡ client = ground arith in
    let (no_object, no_uri, code_flow) = check_response-ok request uri (ground arith) in
    let (state_given, state_short) = check_state-ok request uri v.state (ground arith) in
    let (scopes, allowed) = check_scope-ok request client uri v.scope (ground arith) in
    let (challenge_given, method, challenge) =
      check_code_challenge-ok request uri v.code_challenge (ground arith) in
    (
      is_client,
      ground arith,
      record {
        no_request_object = no_object;
        no_request_uri = no_uri;
        code_flow = code_flow;
        state_given = state_given;
        state_short = state_short;
        scopes = scopes;
        allowed = rw is_client allowed;
        challenge_given = challenge_given;
        method = method;
        challenge = challenge;
        prompt = ground arith;
        max_age = ground arith;
      },
    )

-- A request that passes validation names an active client and one of its registered redirect
-- URIs, asks for the code flow with a state, for scopes that the client may have and with an S256
-- challenge. Validation changes no table.
pub validate-IsSound :
    (request : AuthorizationRequest) (c c' : Conn) (v : ValidatedRequest)
    → validate request c ≡ (ok v, c')
    → IsRegistered c.db v.client v.client.client_id v.redirect_uri
      × (request.client_id ≡ some v.client.client_id)
      × (request.redirect_uri ≡ some v.redirect_uri)
      × IsSound request v
      × (c'.db ≡ c.db)
unfolding validate find_by_client_id
validate-IsSound request c c' v h = after_or _ c _ _ h λ client_id has_id h₁.
    after_pool _ c _ _ h₁ λ found c₁ run h₂. after_or _ c₁ _ _ h₂ λ client kept h₃.
      after_or _ c₁ _ _ h₃ λ uri has_uri h₄. after_lift _ c₁ _ h₄ λ _ known h₅.
        let (listed, named, active) = found_active client_id c.db c₁.db found client run kept in
        let (checked, same) = lift-ok _ c₁ h₅ in
        let (is_client, is_uri, sound) = check_protocol-ok request client uri v checked in
        (
          record {
            listed = rw is_client listed;
            named = refl;
            active = rw is_client active;
            registered = rw (is_client, is_uri) (ground arith);
          },
          has_id ∙ ap some (sym named ∙ ap (λ (x : OAuthClient). x.client_id) (sym is_client)),
          has_uri ∙ ap some (sym is_uri),
          sound,
          ap (λ (x : Conn). x.db) (sym same)
              ∙ ap (λ (o : Result DbErr (Option OAuthClient) × Db). o.1) (sym run),
        )
