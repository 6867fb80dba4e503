-- ===== src/OAuth/Authorization/Validation.antt =====
-- `validate`, in its two phases.
pub mod Redirects
pub mod Success
use Prim.Native.String
use Prim.Native.String.{[], ◌∷◌}
use Prim.Native.Char.{code}
use sharp_oauth.Prelude.{
  ℕ, ◌+◌, ◌*◌, ◌-◌, ◌^◌, Bool, true, false, not, ◌&&◌, ◌||◌, String, len, Option, none, some,
  Result, ok, err, ◌>>?◌, ◌>>!◌, ◌==◌, eqb, ltb, leb, if◌then◌else◌, ok_or, map_err, reject_if,
  is_some_and, keep_if, is_empty, starts_with_code,
}
use sharp_oauth.Error.{AppError, DbErr, database}
use sharp_oauth.Scope
use sharp_oauth.Scope.{ScopeSet, is_subset_of}
use sharp_oauth.Storage.{OAuthClient}
use sharp_oauth.Storage.Conn.{M, pure, lift, on_pool, ◌>>=◌, ◌>>◌}
use sharp_oauth.Storage.Clients.{find_by_client_id}
use sharp_oauth.OAuth.Pkce.{s256, is_valid_s256_challenge}
use sharp_oauth.OAuth.Client.Registry.{is_active, has_redirect_uri, allowed_scopes}
use sharp_oauth.OAuth.Authorization.Prompt
use sharp_oauth.OAuth.Authorization.Prompt.{Prompt}
use sharp_oauth.OAuth.Authorization.Request.{AuthorizationRequest}

abbrev pub max_nonce_len : ℕ
max_nonce_len = 512

abbrev pub max_state_len : ℕ
max_state_len = 2048

pub record ValidatedRequest : Type 0 where
  pub client : OAuthClient
  pub redirect_uri : String
  pub scope : ScopeSet
  pub state : String
  pub code_challenge : String
  pub nonce : Option String
  pub prompt : Prompt
  pub max_age : Option ℕ

pub record ErrorRedirect : Type 0 where
  pub redirect_uri : String
  pub state : Option String
  pub error : String
  pub description : String

-- `Unsafe`, `Redirect` and `Internal`.
pub data AuthorizationError : Type 0 where
  unsafe_request : String → AuthorizationError
  redirect : ErrorRedirect → AuthorizationError
  internal_error : AppError → AuthorizationError

-- `From<DbErr>`.
abbrev pub from_db : DbErr → AuthorizationError
from_db e = internal_error (database e)

-- `ValidatedRequest::error`.
unfoldable pub error : ValidatedRequest → String → String → AuthorizationError
error self name description = redirect (record {
  redirect_uri = self.redirect_uri;
  state = some self.state;
  error = name;
  description = description;
})

-- The closure `fail` of the second phase.
unfoldable pub fail : AuthorizationRequest → String → String → String → AuthorizationError
fail request redirect_uri name description = redirect (record {
  redirect_uri = redirect_uri;
  state = request.state;
  error = name;
  description = description;
})

-- The digits of `str::parse::<u32>`, from the value read so far.
unfoldable pub read_digits : ℕ → String → Option ℕ
read_digits value [] = some value
read_digits value (c ∷ s) =
    let rest = read_digits (value * 10 + (code c - b'0')) s in
    if not (leb b'0' (code c) && leb (code c) b'9')
    then none
    else if leb (2 ^ 32) (value * 10 + (code c - b'0'))
    then none
    else rest

-- `str::parse::<u32>`: digits, with one `+` allowed in front.
unfoldable pub parse_u32 : String → Option ℕ
parse_u32 [] = none
parse_u32 (c ∷ s) =
    if eqb (code c) b'+'
    then (if is_empty s then none else read_digits 0 s)
    else read_digits 0 (c ∷ s)

abbrev pub parse_max_age : Option String → Option (Option ℕ)
parse_max_age none = some none
parse_max_age (some raw) = elim (parse_u32 raw) [ none ↦ none | some n ↦ some (some n) ]

-- The first part of phase 2: request objects, response type and mode.
unfoldable pub check_response : AuthorizationRequest → String → Result AuthorizationError (Unit {0})
check_response request redirect_uri =
    reject_if request.has_request_object
      (fail request redirect_uri "request_not_supported" "request objects are not supported")
    >>! reject_if request.has_request_uri
        (fail request redirect_uri "request_uri_not_supported" "request_uri is not supported")
    >>! ok_or (fail request redirect_uri "invalid_request" "response_type is required")
        request.response_type
    >>? λ response_type.
        reject_if (not (response_type == "code")) (
          fail request redirect_uri "unsupported_response_type"
            "only response_type=code is supported")
        >>! reject_if (is_some_and request.response_mode (λ mode. not (mode == "query")))
            (fail request redirect_uri "invalid_request" "only response_mode=query is supported")

unfoldable pub check_state : AuthorizationRequest → String → Result AuthorizationError String
check_state request redirect_uri =
    ok_or (fail request redirect_uri "invalid_request" "state is required") request.state
    >>? λ state.
        if ltb max_state_len (len state)
        then err (fail request redirect_uri "invalid_request" "state is too long")
        else ok state

unfoldable pub check_scope :
    AuthorizationRequest → OAuthClient → String → Result AuthorizationError ScopeSet
check_scope request client redirect_uri =
    ok_or (fail request redirect_uri "invalid_scope" "scope is required") request.scope >>? λ raw.
    map_err (λ _. fail request redirect_uri "invalid_scope" "scope is malformed") (Scope.parse raw)
    >>? λ scope.
        if not (is_subset_of scope (allowed_scopes client))
        then err (
            fail request redirect_uri "invalid_scope"
              "the client is not allowed to request one or more of these scopes")
        else ok scope

unfoldable pub check_code_challenge :
    AuthorizationRequest → String → Result AuthorizationError String
check_code_challenge request redirect_uri =
    ok_or (fail request redirect_uri "invalid_request" "code_challenge is required (PKCE)")
      request.code_challenge
    >>? λ code_challenge.
        if not (is_some_and request.code_challenge_method (λ method. method == s256))
        then err (fail request redirect_uri "invalid_request" "code_challenge_method must be S256")
        else if not (is_valid_s256_challenge code_challenge)
        then err (fail request redirect_uri "invalid_request" "code_challenge is malformed")
        else ok code_challenge

-- Phase 2: the errors go back to the client.
unfoldable pub check_protocol :
    AuthorizationRequest → OAuthClient → String → Result AuthorizationError ValidatedRequest
check_protocol request client redirect_uri =
    check_response request redirect_uri
    >>! (check_state request redirect_uri >>? λ state.
        check_scope request client redirect_uri >>? λ scope.
        check_code_challenge request redirect_uri >>? λ code_challenge.
        reject_if (is_some_and request.nonce (λ nonce. ltb max_nonce_len (len nonce)))
          (fail request redirect_uri "invalid_request" "nonce is too long")
        >>! (map_err (λ _. fail request redirect_uri "invalid_request" "prompt is invalid")
              (Prompt.parse request.prompt)
            >>? λ prompt.
                ok_or
                  (fail request redirect_uri "invalid_request"
                    "max_age must be a non-negative integer")
                  (parse_max_age request.max_age)
                >>? λ max_age. ok (record {
                  client = client;
                  redirect_uri = redirect_uri;
                  scope = scope;
                  state = state;
                  code_challenge = code_challenge;
                  nonce = request.nonce;
                  prompt = prompt;
                  max_age = max_age;
                })))

-- Phase 1, then phase 2: nothing is redirected before the client and its redirect URI are known.
unfoldable pub validate : AuthorizationRequest → M AuthorizationError ValidatedRequest
validate request = do
  client_id ←
      lift
        (ok_or (unsafe_request "The request is missing the client_id parameter.") request.client_id)
  found ← on_pool from_db (find_by_client_id client_id)
  client ← lift (
      ok_or (unsafe_request "The application making this request is not registered with Sharpnr.")
        (keep_if is_active found))
  redirect_uri ← lift (
      ok_or (unsafe_request "The request is missing the redirect_uri parameter.")
        request.redirect_uri)
  lift (
      reject_if (not (has_redirect_uri client redirect_uri))
        (unsafe_request "The redirect_uri does not match any URI registered for this application."))
  lift (check_protocol request client redirect_uri)
