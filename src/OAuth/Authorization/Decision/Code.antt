-- ===== src/OAuth/Authorization/Decision/Code.antt =====
-- When the authorization endpoint hands out a code without asking, and when it may not ask.
use sharp_oauth.Prelude.{
  ℕ, ◌≤◌, ◌-◌, ◌/◌, is_some_and, ltb, ◌≡◌, refl, sym, ap, ◌∙◌, true, false, not, ◌&&◌, String,
  Option, none, some, List, Result, ok, arith, Bool-cases, inl, inr, keep_if,
}
use sharp_oauth.Scope.{ScopeSet, is_subset_of, from_iter}
use sharp_oauth.Storage.{Db, Time, User, Session, second}
use sharp_oauth.Storage.Conn.{Conn, pure, throw}
use sharp_oauth.Storage.Conn.Steps.{>>=-ok, after_convert, after_pool}
use sharp_oauth.Storage.Consents.{find_active}
use sharp_oauth.State.{AppState}
use sharp_oauth.OAuth.Consent.{collected}
use sharp_oauth.OAuth.Authorization.Request.{AuthorizationRequest}
use sharp_oauth.OAuth.Authorization.Validation.{ValidatedRequest, AuthorizationError, validate}
use sharp_oauth.OAuth.Authorization.Validation.Success.{validate-IsSound}
use sharp_oauth.OAuth.Authorization.Decision.{
  NextStep, redirect_to_client, AuthorizationDraw, new_code, covers, needs_reauthentication,
  decide_consent, decide_signed_in, decide,
}
use sharp_oauth.OAuth.Consent.Record.{granted_scopes-ok}
use sharp_oauth.OAuth.Authorization.Decision.Issue.{with_code, issue_code-ok}

-- The user's active consent for the client covers the request.
pub record IsApproved (d : Db) (v : ValidatedRequest) (user : User) : Type 0 where
  pub names : List String
  pub stored : (find_active user.id v.client.id d).0 ≡ ok (some names)
  pub covered : is_subset_of v.scope (from_iter names) ≡ true

covers-IsApproved :
    (d : Db) (v : ValidatedRequest) (user : User) (names : Option (List String))
    → (find_active user.id v.client.id d).0 ≡ ok names
    → covers v (collected names) ≡ true
    → IsApproved d v user
covers-IsApproved d v user none stored h = cc
covers-IsApproved d v user (some names) stored h = record {
  names = names;
  stored = stored;
  covered = h;
}

-- A session of this age in seconds is young enough for the limit of a request.
abbrev pub IsYoung : Option ℕ → ℕ → Type 0
IsYoung none age = Unit {0}
IsYoung (some max_age) age = age ≤ max_age

young :
    (max_age : Option ℕ) (age : ℕ)
    → is_some_and max_age (λ limit. ltb limit age) ≡ false
    → IsYoung max_age age
young none age h = tt
young (some max_age) age h = ground arith

-- The request does not force a sign-in, by `prompt` or by `max_age`.
pub record IsFresh (v : ValidatedRequest) (session : Session) (now : Time) : Type 0 where
  pub unforced : v.prompt.login ≡ false
  pub young : IsYoung v.max_age ((now - session.created_at) / second)

needs_reauthentication-IsFresh :
    (v : ValidatedRequest) (session : Session) (now : Time)
    → needs_reauthentication v session now ≡ false
    → IsFresh v session now
unfolding needs_reauthentication
needs_reauthentication-IsFresh v session now h = record {
  unforced = ground arith;
  young = young v.max_age ((now - session.created_at) / second) (ground arith);
}

-- What stands behind a code that was issued without a question.
pub record CodeIssued (app : AppState) (signed_in : Option (Session × User))
    (draw : AuthorizationDraw) (v : ValidatedRequest) (before after : Db) : Type 0 where
  pub session : Session
  pub user : User
  pub who : signed_in ≡ some (session, user)
  pub fresh : IsFresh v session draw.now
  pub approved : IsApproved before v user
  pub unforced : v.prompt.consent ≡ false
  pub stored : after ≡ with_code (new_code app.platform v user session draw) before

decide_consent-code :
    (app : AppState) (v : ValidatedRequest) (session : Session) (user : User)
    (draw : AuthorizationDraw) (granted : Option ScopeSet) (c : Conn) {url : String} {c' : Conn}
    → decide_consent app v session user draw granted c ≡ (ok (redirect_to_client url), c')
    → (covers v granted ≡ true)
      × (v.prompt.consent ≡ false)
      × (c'.db ≡ with_code (new_code app.platform v user session draw) c.db)
unfolding decide_consent pure throw
decide_consent-code app v session user draw granted c {url} {c'} h =
    elim (Bool-cases (covers v granted && not v.prompt.consent)) [
      | inl issue ↦ after_convert _ c _ _ (rw issue at h) λ url₁ c₁ issued rest. (
        ground (arith, issue),
        ground (arith, issue),
        ap (λ (o : Result AuthorizationError NextStep × Conn). o.1.db) (sym rest)
            ∙ issue_code-ok app v user session draw c issued,
      )
      | inr ask ↦ elim (Bool-cases v.prompt.none) [
        | inl silent ↦ absurd (ground arith)
        | inr shown ↦
            after_pool _ c _ _ (rw (ask, shown) at h) λ scopes c₁ run rest. absurd (ground arith)
      ]
    ]

kept_pair :
    (signed_in : Option (Session × User)) (v : ValidatedRequest) (now : ℕ) (session : Session)
    (user : User)
    → keep_if (λ pair. not (needs_reauthentication v pair.0 now)) signed_in ≡ some (session, user)
    → (signed_in ≡ some (session, user)) × (needs_reauthentication v session now ≡ false)
kept_pair none v now session user h = cc
kept_pair (some (s, u)) v now session user h = elim (Bool-cases (needs_reauthentication v s now)) [
  | inl old ↦ absurd (ground arith)
  | inr good ↦
      let same : (s, u) ≡ (session, user) = ground arith in
      (
        ap some same,
        ap (λ (o : Session × User). needs_reauthentication v o.0 now) (sym same) ∙ good,
      )
]

decide_signed_in-code :
    (app : AppState) (request : AuthorizationRequest) (v : ValidatedRequest)
    (draw : AuthorizationDraw) (pair : Option (Session × User)) (c : Conn) {url : String}
    {c' : Conn}
    → decide_signed_in app request v draw pair c ≡ (ok (redirect_to_client url), c')
    → (session : Session) × (user : User) × (pair ≡ some (session, user))
      × IsApproved c.db v user
      × (v.prompt.consent ≡ false)
      × (c'.db ≡ with_code (new_code app.platform v user session draw) c.db)
unfolding decide_signed_in pure throw
decide_signed_in-code app request v draw none c h = elim (Bool-cases v.prompt.none) [
  | inl silent ↦ absurd (ground arith)
  | inr shown ↦ absurd (ground arith)
]
decide_signed_in-code app request v draw (some (session, user)) c h =
    after_convert _ c _ _ h λ granted c₁ asked rest.
      let (names, stored, is_collected, same) = granted_scopes-ok user.id v.client.id c asked in
      let (covered, unforced, grown) =
        decide_consent-code app v session user draw granted c₁ rest in
      (
        session,
        user,
        refl,
        covers-IsApproved c.db v user names stored (ap (covers v) (sym is_collected) ∙ covered),
        unforced,
        rw same at grown,
      )

-- A code is handed out at once only to a signed-in user, when the request neither forces a new
-- sign-in nor names a `max_age` that the session has passed, when the user's active consent for this
-- client covers every requested scope, and when the client did not ask for the consent page. The
-- tables gain the code, bound to the request, and nothing else.
pub decide-CodeIssued :
    (app : AppState) (request : AuthorizationRequest) (signed_in : Option (Session × User))
    (draw : AuthorizationDraw) (c c' : Conn) (url : String)
    → decide app request signed_in draw c ≡ (ok (redirect_to_client url), c')
    → (v : ValidatedRequest) × (c₁ : Conn) × (validate request c ≡ (ok v, c₁))
      × CodeIssued app signed_in draw v c.db c'.db
unfolding decide
decide-CodeIssued app request signed_in draw c c' url h =
    let (v, c₁, validated, rest) = >>=-ok (validate request) _ c h in
    let (_, _, _, _, same) = validate-IsSound request c c₁ v validated in
    let (session, user, pair, approved, unforced, grown) =
      decide_signed_in-code app request v draw _ c₁ rest in
    let (who, fresh) = kept_pair signed_in v draw.now session user pair in
    (
      v,
      c₁,
      validated,
      record {
        session = session;
        user = user;
        who = who;
        fresh = needs_reauthentication-IsFresh v session draw.now fresh;
        approved = rw same at approved;
        unforced = unforced;
        stored = rw same at grown;
      },
    )

decide_signed_in-silent :
    (app : AppState) (request : AuthorizationRequest) (v : ValidatedRequest)
    (draw : AuthorizationDraw) (pair : Option (Session × User)) (c : Conn) {step : NextStep}
    {c' : Conn}
    → v.prompt.none ≡ true
    → decide_signed_in app request v draw pair c ≡ (ok step, c')
    → (url : String) × (step ≡ redirect_to_client url)
unfolding decide_signed_in decide_consent pure throw
decide_signed_in-silent app request v draw none c silent h = absurd (ground arith)
decide_signed_in-silent app request v draw (some (session, user)) c silent h =
    after_convert _ c _ _ h λ granted c₁ asked rest.
      elim (Bool-cases (covers v granted && not v.prompt.consent)) [
        | inl issue ↦
            after_convert _ c₁ _ _ (rw issue at rest)
              λ url c₂ issued fin. (url, ground (arith, fin))
        | inr ask ↦ absurd (ground arith)
      ]

-- `prompt=none` never shows a page: a valid request with it either gets a redirect to the client
-- or fails.
pub decide-silent :
    (app : AppState) (request : AuthorizationRequest) (signed_in : Option (Session × User))
    (draw : AuthorizationDraw) (c c₁ c' : Conn) (v : ValidatedRequest) (step : NextStep)
    → validate request c ≡ (ok v, c₁)
    → v.prompt.none ≡ true
    → decide app request signed_in draw c ≡ (ok step, c')
    → (url : String) × (step ≡ redirect_to_client url)
unfolding decide
decide-silent app request signed_in draw c c₁ c' v step validated silent h =
    let (w, c₂, validated', rest) = >>=-ok (validate request) _ c h in
    let same : v ≡ w = ground (arith, validated, validated') in
    decide_signed_in-silent app request w draw _ c₂
      (ap (λ (x : ValidatedRequest). x.prompt.none) (sym same) ∙ silent) rest
