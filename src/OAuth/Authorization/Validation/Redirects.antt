-- ===== src/OAuth/Authorization/Validation/Redirects.antt =====
-- Where a refused authorization request may send the browser.
use sharp_oauth.Prelude.{
  ◌≡◌, refl, sym, ap, ◌∙◌, Bool, true, false, not, String, Option, none, some, Result, ok, err,
  arith, find, keep_if, ok_or, reject_if, ◌==◌, eq_iff, ◌>>?◌, ◌>>!◌, map_err, is_some_and, ltb,
  len, if◌then◌else◌,
}
use sharp_oauth.Prelude.Rows.{In, find-In, find-passes}
use sharp_oauth.Scope.{parse, is_subset_of}
use sharp_oauth.Storage.{Db, OAuthClient}
use sharp_oauth.Storage.Conn.{Conn}
use sharp_oauth.Storage.Conn.Steps.{past_lift, past_pool, ok_or-ok, lift-err}
use sharp_oauth.Storage.Clients.{find_by_client_id}
use sharp_oauth.OAuth.Pkce.{s256, is_valid_s256_challenge}
use sharp_oauth.OAuth.Client.Registry.{is_active, has_redirect_uri, allowed_scopes}
use sharp_oauth.OAuth.Authorization.Prompt
use sharp_oauth.OAuth.Authorization.Request.{AuthorizationRequest}
use sharp_oauth.OAuth.Authorization.Validation.{
  AuthorizationError, ErrorRedirect, redirect, unsafe_request, fail, check_response, check_state,
  check_scope, check_code_challenge, check_protocol, validate, max_nonce_len, max_state_len,
  parse_max_age,
}

-- A client of the tables that is not disabled and has registered the URI.
pub record IsRegistered (d : Db) (client : OAuthClient) (client_id uri : String) : Type 0 where
  pub listed : In client d.clients
  pub named : client.client_id ≡ client_id
  pub active : client.disabled_at ≡ none
  pub registered : has_redirect_uri client uri ≡ true

pub found_active :
    (client_id : String) (d d' : Db) (found : Option OAuthClient) (client : OAuthClient)
    → find_by_client_id client_id d ≡ (ok found, d')
    → keep_if is_active found ≡ some client
    → In client d.clients × (client.client_id ≡ client_id) × (client.disabled_at ≡ none)
unfolding find_by_client_id is_active
found_active client_id d d' none client run kept = cc
found_active client_id d d' (some row) client run kept =
    let hit : find (λ (row : OAuthClient). row.client_id == client_id) d.clients ≡ some row =
      ground arith in
    let same : row ≡ client = ground arith in
    (
      rw (← same) (find-In _ _ row hit),
      rw (← same) ((eq_iff row.client_id client_id).0 (find-passes _ _ row hit)),
      ground arith,
    )

-- An error of the second phase is reported to the client at this URI, with the request's state.
module _ (request : AuthorizationRequest) (uri : String) where
  abbrev pub IsBack : AuthorizationError → Type 0
  IsBack e =
      (r : ErrorRedirect) × (e ≡ redirect r) × (r.redirect_uri ≡ uri) × (r.state ≡ request.state)

  record GoesBack {A : Type 0} (r : Result AuthorizationError A) : Type 0 where
    pub back : (e : AuthorizationError) → r ≡ err e → IsBack e

  abbrev blame : {A : Type 0} → Result AuthorizationError A → AuthorizationError
  blame (ok a) = unsafe_request ""
  blame (err e) = e

  ok-GoesBack : {A : Type 0} (a : A) → GoesBack (ok a)
  ok-GoesBack a = record { back = λ e h. cc }

  module _ (name description : String) where
    fail-GoesBack : {A : Type 0} → GoesBack {A = A} (err (fail request uri name description))
    unfolding fail
    fail-GoesBack {A} = record {
      back = λ e h. (_, ap (λ (r : Result AuthorizationError A). blame r) (sym h), refl, refl);
    }

    ok_or-GoesBack :
        {A : Type 0} (o : Option A) → GoesBack (ok_or (fail request uri name description) o)
    ok_or-GoesBack none = fail-GoesBack
    ok_or-GoesBack (some a) = ok-GoesBack a

    reject_if-GoesBack : (b : Bool) → GoesBack (reject_if b (fail request uri name description))
    reject_if-GoesBack true = fail-GoesBack
    reject_if-GoesBack false = ok-GoesBack tt

    map_err-GoesBack :
        {E A : Type 0} (r : Result E A)
        → GoesBack (map_err (λ _. fail request uri name description) r)
    map_err-GoesBack (ok a) = ok-GoesBack a
    map_err-GoesBack (err e) = fail-GoesBack

    if-GoesBack :
        {A : Type 0} (b : Bool) (r : Result AuthorizationError A)
        → GoesBack r
        → GoesBack (if b then err (fail request uri name description) else r)
    if-GoesBack true r h = fail-GoesBack
    if-GoesBack false r h = h

  bind-GoesBack :
      {A B : Type 0} (m : Result AuthorizationError A) (k : A → Result AuthorizationError B)
      → GoesBack m
      → ((a : A) → GoesBack (k a))
      → GoesBack (m >>? k)
  bind-GoesBack (ok a) k h rest = rest a
  bind-GoesBack {B = B} (err x) k h rest = record {
    back = λ e same. h.back e (ap err (ap (λ (r : Result AuthorizationError B). blame r) same));
  }

check_response-GoesBack :
    (request : AuthorizationRequest) (uri : String)
    → GoesBack request uri (check_response request uri)
unfolding check_response
check_response-GoesBack request uri =
    bind-GoesBack request uri
      (reject_if request.has_request_object _
        >>! reject_if request.has_request_uri _
        >>! ok_or _ request.response_type)
      _
      (bind-GoesBack request uri
        (reject_if request.has_request_object _ >>! reject_if request.has_request_uri _) _
        (bind-GoesBack request uri (reject_if request.has_request_object _) _
          (reject_if-GoesBack request uri _ _ request.has_request_object)
          λ _. reject_if-GoesBack request uri _ _ request.has_request_uri)
        λ _. ok_or-GoesBack request uri _ _ request.response_type)
      λ response_type.
        bind-GoesBack request uri
          (reject_if (not (response_type == "code"))
            (fail request uri "unsupported_response_type" "only response_type=code is supported"))
          _ (reject_if-GoesBack request uri _ _ (not (response_type == "code")))
          λ _.
            reject_if-GoesBack request uri _ _
              (is_some_and request.response_mode (λ mode. not (mode == "query")))

check_state-GoesBack :
    (request : AuthorizationRequest) (uri : String) → GoesBack request uri (check_state request uri)
unfolding check_state
check_state-GoesBack request uri =
    bind-GoesBack request uri (ok_or _ request.state) _
      (ok_or-GoesBack request uri _ _ request.state)
      λ state.
        if-GoesBack request uri _ _ (ltb max_state_len (len state)) _
          (ok-GoesBack request uri state)

check_scope-GoesBack :
    (request : AuthorizationRequest) (client : OAuthClient) (uri : String)
    → GoesBack request uri (check_scope request client uri)
unfolding check_scope
check_scope-GoesBack request client uri =
    bind-GoesBack request uri (ok_or _ request.scope) _
      (ok_or-GoesBack request uri _ _ request.scope)
      λ raw.
        bind-GoesBack request uri (map_err _ (parse raw)) _
          (map_err-GoesBack request uri _ _ (parse raw))
          λ scope.
            if-GoesBack request uri _ _ (not (is_subset_of scope (allowed_scopes client))) _
              (ok-GoesBack request uri scope)

check_code_challenge-GoesBack :
    (request : AuthorizationRequest) (uri : String)
    → GoesBack request uri (check_code_challenge request uri)
unfolding check_code_challenge
check_code_challenge-GoesBack request uri =
    bind-GoesBack request uri (ok_or _ request.code_challenge) _
      (ok_or-GoesBack request uri _ _ request.code_challenge)
      λ code_challenge.
        if-GoesBack request uri _ _
          (not (is_some_and request.code_challenge_method (λ method. method == s256))) _
          (if-GoesBack request uri _ _ (not (is_valid_s256_challenge code_challenge)) _
            (ok-GoesBack request uri code_challenge))

check_protocol-GoesBack :
    (request : AuthorizationRequest) (client : OAuthClient) (uri : String)
    → GoesBack request uri (check_protocol request client uri)
unfolding check_protocol
check_protocol-GoesBack request client uri =
    bind-GoesBack request uri (check_response request uri) _ (check_response-GoesBack request uri)
      λ _.
        bind-GoesBack request uri (check_state request uri) _ (check_state-GoesBack request uri)
          λ _.
            bind-GoesBack request uri (check_scope request client uri) _
              (check_scope-GoesBack request client uri)
              λ _.
                bind-GoesBack request uri (check_code_challenge request uri) _
                  (check_code_challenge-GoesBack request uri)
                  λ _.
                    bind-GoesBack request uri
                      (reject_if
                        (is_some_and request.nonce (λ nonce. ltb max_nonce_len (len nonce)))
                        (fail request uri "invalid_request" "nonce is too long"))
                      _
                      (reject_if-GoesBack request uri _ _
                        (is_some_and request.nonce (λ nonce. ltb max_nonce_len (len nonce))))
                      λ _.
                        bind-GoesBack request uri (map_err _ (Prompt.parse request.prompt)) _
                          (map_err-GoesBack request uri _ _ (Prompt.parse request.prompt))
                          λ _.
                            bind-GoesBack request uri (ok_or _ (parse_max_age request.max_age)) _
                              (ok_or-GoesBack request uri _ _ (parse_max_age request.max_age))
                              λ _. ok-GoesBack request uri _

-- No open redirector: a request is refused by a redirect only to a URI that it names itself and
-- that an active client, which it names too, has registered. The request's `state` goes along.
pub validate-redirect :
    (request : AuthorizationRequest) (c c' : Conn) (e : ErrorRedirect)
    → validate request c ≡ (err (redirect e), c')
    → (client : OAuthClient) × (client_id : String) × (request.client_id ≡ some client_id)
      × (request.redirect_uri ≡ some e.redirect_uri)
      × IsRegistered c.db client client_id e.redirect_uri
      × (e.state ≡ request.state)
unfolding validate
validate-redirect request c c' e h =
    past_lift _ c _ (λ x. ground arith) h
      λ client_id has_id h₁.
        past_pool _ c _ _ (λ x y. ground arith) h₁
          λ found c₁ run h₂.
            past_lift _ c₁ _ (λ x. ground arith) h₂
              λ client kept h₃.
                past_lift _ c₁ _ (λ x. ground arith) h₃
                  λ uri has_uri h₄.
                    past_lift _ c₁ _ (λ x. ground arith) h₄
                      λ _ known h₅.
                        let (listed, named, active) =
                          found_active client_id c.db c₁.db found client run (ok_or-ok _ _ kept) in
                        let (r, same, at_uri, with_state) =
                          (check_protocol-GoesBack request client uri).back (redirect e)
                            (lift-err _ c₁ h₅) in
                        let is_r : r ≡ e = ground arith in
                        let is_uri : e.redirect_uri ≡ uri = rw is_r at at_uri in
                        (
                          client,
                          client_id,
                          ok_or-ok _ _ has_id,
                          ok_or-ok _ _ has_uri ∙ ap some (sym is_uri),
                          record {
                            listed = listed;
                            named = named;
                            active = active;
                            registered = rw is_uri (ground arith);
                          },
                          rw is_r at with_state,
                        )
