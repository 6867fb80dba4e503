-- ===== src/OAuth/Authorization/Decision/Answer.antt =====
-- What the user's answer on the consent page does.
use sharp_oauth.Prelude.{
  ◌≡◌, refl, Bool, true, false, ◌||◌, String, Option, some, List, ok, arith, mem, unwrap_or, [],
  ◌∷◌, ◌++◌,
}
use sharp_oauth.Storage.{Db, User, Session}
use sharp_oauth.Storage.Conn.{Conn, throw}
use sharp_oauth.Storage.Conn.Steps.{>>=-ok, after_convert, convert-ok}
use sharp_oauth.Storage.Clients.{find_by_client_id}
use sharp_oauth.Storage.Conn.Rollback.{
  KeepsDb, KeepsDb-bind, KeepsDb-throw, KeepsDb-lift, KeepsDb-on_pool,
}
use sharp_oauth.Storage.Consents.{find_active, upsert}
use sharp_oauth.Storage.Consents.Upsert.{find_active-upsert}
use sharp_oauth.State.{AppState}
use sharp_oauth.OAuth.Consent.{collected, approved_with}
use sharp_oauth.OAuth.Consent.Record.{grant-ok, approved_with-mem}
use sharp_oauth.OAuth.Authorization.Request.{AuthorizationRequest}
use sharp_oauth.OAuth.Authorization.Validation.{ValidatedRequest, internal_error, validate}
use sharp_oauth.OAuth.Authorization.Validation.Success.{validate-IsSound}
use sharp_oauth.OAuth.Authorization.Decision.{
  AuthorizationDraw, new_code, issue_code, answer_consent, complete_consent,
}
use sharp_oauth.OAuth.Authorization.Decision.Issue.{issue_code-ok}

-- An approval on record, and the code that was issued for it.
pub record Approved (app : AppState) (v : ValidatedRequest) (user : User) (session : Session)
    (draw : AuthorizationDraw) (before after : Db) : Type 0 where
  pub names : Option (List String)
  pub earlier : (find_active user.id v.client.id before).0 ≡ ok names
  pub scopes : List String
  pub recorded : (find_active user.id v.client.id after).0 ≡ ok (some scopes)
  pub grown : (x : String) → mem x scopes ≡ (mem x (unwrap_or [] names) || mem x v.scope)
  pub issued : after.codes ≡ before.codes ++ new_code app.platform v user session draw ∷ []

answer_consent-Approved :
    (app : AppState) (v : ValidatedRequest) (session : Session) (user : User)
    (draw : AuthorizationDraw) (approved : Bool) (c : Conn) {url : String} {c' : Conn}
    → answer_consent app v session user draw approved c ≡ (ok url, c')
    → (approved ≡ true) × Approved app v user session draw c.db c'.db
unfolding answer_consent throw find_active upsert
answer_consent-Approved app v session user draw false c h = ground arith
answer_consent-Approved app v session user draw true c h =
    after_convert _ c _ _ h λ _ c₁ granted rest.
      let (names, earlier, tables) =
        grant-ok user.id v.client.id v.scope draw.consent_id draw.granted_at c granted in
      let grown =
        issue_code-ok app v user session draw c₁
          (convert-ok internal_error (issue_code app v user session draw) c₁ rest) in
      (
        refl,
        record {
          names = names;
          earlier = earlier;
          scopes = approved_with v.scope (collected names);
          recorded =
              rw (grown, tables)
                (find_active-upsert draw.consent_id user.id v.client.id
                  (approved_with v.scope (collected names)) draw.granted_at c.db);
          grown = approved_with-mem v.scope names;
          issued = rw (grown, tables) refl;
        },
      )

-- A code comes out of the consent page only when the user approved a valid request. The user's
-- active consent for the client then lists the scopes approved before and those of the request,
-- and no others, and the code is stored.
pub complete_consent-Approved :
    (app : AppState) (request : AuthorizationRequest) (approved : Bool) (session : Session)
    (user : User) (draw : AuthorizationDraw) (c c' : Conn) (url : String)
    → complete_consent app request approved session user draw c ≡ (ok url, c')
    → (approved ≡ true)
      × (v : ValidatedRequest) × (c₁ : Conn) × (validate request c ≡ (ok v, c₁))
      × Approved app v user session draw c.db c'.db
unfolding complete_consent
complete_consent-Approved app request approved session user draw c c' url h =
    let (v, c₁, validated, rest) = >>=-ok (validate request) _ c h in
    let (_, _, _, _, same) = validate-IsSound request c c₁ v validated in
    let (agreed, x) = answer_consent-Approved app v session user draw approved c₁ rest in
    (agreed, v, c₁, validated, rw same at x)

validate-KeepsDb : (request : AuthorizationRequest) → KeepsDb (validate request)
unfolding validate find_by_client_id
validate-KeepsDb request = KeepsDb-bind _ _ (KeepsDb-lift _) λ _.
    KeepsDb-bind _ _ (KeepsDb-on_pool _ _ λ d. refl) λ _. KeepsDb-bind _ _ (KeepsDb-lift _) λ _.
      KeepsDb-bind _ _ (KeepsDb-lift _) λ _. KeepsDb-bind _ _ (KeepsDb-lift _) λ _. KeepsDb-lift _

-- A denied request changes no table: no consent and no code is stored.
complete_consent-denied :
    (app : AppState) (request : AuthorizationRequest) (session : Session) (user : User)
    (draw : AuthorizationDraw)
    → KeepsDb (complete_consent app request false session user draw)
unfolding complete_consent answer_consent
complete_consent-denied app request session user draw =
    KeepsDb-bind _ _ (validate-KeepsDb request) λ v. KeepsDb-throw _
