-- ===== src/OAuth/Token/Rotation/Success.antt =====
-- What a successful refresh has checked, and what it leaves behind.
use sharp_oauth.Prelude.{
  ◌≡◌, refl, sym, ap, ◌∙◌, ◌<◌, true, String, Option, none, some, Result, ok, err, arith, find,
  Bool-cases, inl, inr, ◌==◌, eq_iff, ℕ, mem, unwrap_or,
}
use sharp_oauth.Prelude.Rows.{In, find-In, find-passes}
use sharp_oauth.Error.{AppError, DbErr}
use sharp_oauth.Secret.{hash_token, generate_token}
use sharp_oauth.Scope.{ScopeSet, is_subset_of, to_string}
use sharp_oauth.Scope.Members.{is_subset_of_iff}
use sharp_oauth.Storage.{Db, OAuthClient, RefreshToken}
use sharp_oauth.Storage.Conn.{Conn, pure, throw}
use sharp_oauth.Storage.Conn.Steps.{after_lift, after_or, after_begin, after_tx, after_commit}
use sharp_oauth.Storage.RefreshTokens.{find_by_hash_for_update, mark_rotated}
use sharp_oauth.State.{AppState}
use sharp_oauth.Tokens.Refresh.{
  Unusable, wrong_client, revoked, already_rotated, expired, new_row, check_usable_iff,
}
use sharp_oauth.Tokens.Refresh.Issue.{with_token, after_issue}
use sharp_oauth.OAuth.Params.{Params, get}
use sharp_oauth.OAuth.Token.Response.{TokenResponse, TokenDraw, signed_tokens, stored_scope}
use sharp_oauth.OAuth.Token.Rotation.{
  requested, narrow, successor, rotate, answer, exchange_refresh_token,
}

-- The row that takes the place of a token.
abbrev pub next_token : AppState → OAuthClient → RefreshToken → TokenDraw → RefreshToken
next_token app client row draw =
    new_row app.platform (successor row client) draw.token_bytes draw.token_id draw.now

-- The tables with that row added and the old one marked.
abbrev pub tables_after : AppState → OAuthClient → RefreshToken → TokenDraw → Db → Db
tables_after app client row draw d =
    (mark_rotated row.id draw.token_id (with_token (next_token app client row draw) d)).1

pub record Rotated (app : AppState) (client : OAuthClient) (row : RefreshToken)
    (wanted : Option ScopeSet) (draw : TokenDraw) (before after : Db) (r : TokenResponse)
    : Type 0 where
  pub granted : ScopeSet
  pub scope : ScopeSet
  pub signed : TokenResponse
  pub stored : stored_scope row.scope ≡ ok granted
  pub narrowed : narrow granted wanted ≡ ok scope
  pub signs :
      signed_tokens app client row.user_id scope row.auth_time none draw.now draw.jti ≡ ok signed
  pub tables : after ≡ tables_after app client row draw before
  pub response :
      r ≡ record signed { refresh_token = some (generate_token app.platform draw.token_bytes) }

rotate-Rotated :
    (app : AppState) (client : OAuthClient) (row : RefreshToken) (wanted : Option ScopeSet)
    (draw : TokenDraw) (c : Conn) {r : TokenResponse} {c' : Conn}
    → rotate app client row wanted draw c ≡ (ok r, c')
    → Rotated app client row wanted draw c.tx c'.db r
unfolding rotate pure new_row mark_rotated
rotate-Rotated app client row wanted draw c {r} {c'} h = after_lift _ _ _ h λ granted stored h₁.
    after_lift _ _ _ h₁ λ scope narrowed h₂. after_lift _ _ _ h₂ λ signed signs h₃.
      after_issue _ _ _ _ _ _ _ c h₃ λ c₁ grown free same h₄.
        after_tx _ _ _ _ h₄ λ _ c₂ ran kept h₅. after_commit _ _ _ h₅ λ c₃ committed fin. record {
          granted = granted;
          scope = scope;
          signed = signed;
          stored = stored;
          narrowed = narrowed;
          signs = signs;
          tables =
              ap (λ (o : Result AppError TokenResponse × Conn). o.1.db) (sym fin)
              ∙ committed
              ∙ sym (ap (λ (o : Result DbErr (Unit {0}) × Db). o.1) ran)
              ∙ ap (λ (d : Db). (mark_rotated row.id draw.token_id d).1) grown;
          response = ground arith;
        }

answer-ok :
    (app : AppState) (client : OAuthClient) (row : RefreshToken) (wanted : Option ScopeSet)
    (draw : TokenDraw) (usable : Result Unusable (Unit {0})) (c : Conn) {r : TokenResponse}
    {c' : Conn}
    → answer app client row wanted draw usable c ≡ (ok r, c')
    → (usable ≡ ok tt) × Rotated app client row wanted draw c.tx c'.db r
unfolding answer throw
answer-ok app client row wanted draw (ok _) c h =
    (refl, rotate-Rotated app client row wanted draw c h)
answer-ok app client row wanted draw (err already_rotated) c h =
    after_tx _ _ _ _ h
      λ _ c₁ ran same rest. after_commit _ _ _ rest λ c₂ committed fin. ground arith
answer-ok app client row wanted draw (err wrong_client) c h = ground arith
answer-ok app client row wanted draw (err revoked) c h = ground arith
answer-ok app client row wanted draw (err expired) c h = ground arith

-- Everything that a successful refresh has checked and done.
pub record Refreshed (app : AppState) (client : OAuthClient) (params : Params) (draw : TokenDraw)
    (before after : Db) (r : TokenResponse) : Type 0 where
  pub raw : String
  pub wanted : Option ScopeSet
  pub row : RefreshToken
  pub raw_given : get params "refresh_token" ≡ some raw
  pub wanted_given : requested (get params "scope") ≡ ok wanted
  pub listed : In row before.refresh_tokens
  pub presented : row.token_hash ≡ hash_token app.platform raw
  pub same_client : row.client_id ≡ client.id
  pub live : row.revoked_at ≡ none
  pub current : row.rotated_to_id ≡ none
  pub fresh : draw.now < row.expires_at
  pub rotated : Rotated app client row wanted draw before after r

pub exchange-Refreshed :
    (app : AppState) (client : OAuthClient) (params : Params) (draw : TokenDraw) (c c' : Conn)
    (r : TokenResponse)
    → exchange_refresh_token app client params draw c ≡ (ok r, c')
    → Refreshed app client params draw c.db c'.db r
unfolding exchange_refresh_token find_by_hash_for_update
exchange-Refreshed app client params draw c c' r h = after_or _ _ _ _ h λ raw raw_given h₁.
    after_lift _ _ _ h₁ λ wanted wanted_given h₂. after_begin _ _ _ h₂ λ c₁ opened same h₃.
      after_tx _ _ _ _ h₃ λ found c₂ ran kept h₄. after_or _ _ _ _ h₄ λ row is_row h₅.
        let (usable, rotated) = answer-ok app client row wanted draw _ c₂ h₅ in
        let (same_client, live, current, fresh) =
          (check_usable_iff row client.id draw.now).0 usable in
        let tables : c₂.tx ≡ c.db =
          sym (ap (λ (o : Result DbErr (Option RefreshToken) × Db). o.1) ran) ∙ opened in
        let result : find (λ (row : RefreshToken). row.token_hash == hash_token app.platform raw)
              c₁.tx.refresh_tokens
            ≡ some row =
          ground (arith, ran, is_row) in
        let hit = rw opened at result in
        record {
          raw = raw;
          wanted = wanted;
          row = row;
          raw_given = raw_given;
          wanted_given = wanted_given;
          listed = find-In _ _ row hit;
          presented =
              (eq_iff row.token_hash (hash_token app.platform raw)).0 (find-passes _ _ row hit);
          same_client = same_client;
          live = live;
          current = current;
          fresh = fresh;
          rotated = rw (← tables) rotated;
        }

signed_tokens-scope :
    (app : AppState) (client : OAuthClient) (user_id : ℕ) (scope : ScopeSet) (auth_time : ℕ)
    (nonce : Option String) (now jti : ℕ) {r : TokenResponse}
    → signed_tokens app client user_id scope auth_time nonce now jti ≡ ok r
    → r.scope ≡ to_string scope
unfolding signed_tokens
signed_tokens-scope app client user_id scope auth_time sent now jti h = ground arith

narrow-subset :
    (granted scope : ScopeSet) (wanted : Option ScopeSet)
    → narrow granted wanted ≡ ok scope
    → is_subset_of scope granted ≡ true
unfolding narrow
narrow-subset granted scope none h =
    let same : granted ≡ scope = ground arith in
    rw (← same) ((is_subset_of_iff granted granted).1 λ x m. m)
narrow-subset granted scope (some wanted) h = elim (Bool-cases (is_subset_of wanted granted)) [
  | inl within ↦ let same : wanted ≡ scope = ground arith in rw (← same) within
  | inr beyond ↦ ground arith
]

narrow-exact :
    (granted scope : ScopeSet) (wanted : Option ScopeSet)
    → narrow granted wanted ≡ ok scope
    → scope ≡ unwrap_or granted wanted
unfolding narrow
narrow-exact granted scope none h = ground arith
narrow-exact granted scope (some wanted) h = ground arith

-- What a refresh reports of the scope of the token that was presented.
pub record Narrowed (app : AppState) (params : Params) (before : Db) (r : TokenResponse)
    : Type 0 where
  pub raw : String
  pub row : RefreshToken
  pub wanted : Option ScopeSet
  pub granted : ScopeSet
  pub raw_given : get params "refresh_token" ≡ some raw
  pub wanted_given : requested (get params "scope") ≡ ok wanted
  pub listed : In row before.refresh_tokens
  pub presented : row.token_hash ≡ hash_token app.platform raw
  pub stored : stored_scope row.scope ≡ ok granted
  pub reported : r.scope ≡ to_string (unwrap_or granted wanted)
  pub within :
      (name : String) → mem name (unwrap_or granted wanted) ≡ true → mem name granted ≡ true

-- The scope that a successful refresh reports is the one that the request asks for, or else the
-- whole scope of the presented token, the one whose hash is stored; and every name of it is in the
-- scope of that token.
pub refresh_narrows :
    (app : AppState) (client : OAuthClient) (params : Params) (draw : TokenDraw) (c c' : Conn)
    (r : TokenResponse)
    → exchange_refresh_token app client params draw c ≡ (ok r, c')
    → Narrowed app params c.db r
refresh_narrows app client params draw c c' r h =
    let x = exchange-Refreshed app client params draw c c' r h in
    let exact = narrow-exact _ _ _ x.rotated.narrowed in
    record {
      raw = x.raw;
      row = x.row;
      wanted = x.wanted;
      granted = x.rotated.granted;
      raw_given = x.raw_given;
      wanted_given = x.wanted_given;
      listed = x.listed;
      presented = x.presented;
      stored = x.rotated.stored;
      reported =
          ap (λ (t : TokenResponse). t.scope) x.rotated.response
          ∙ signed_tokens-scope app client _ _ _ _ _ _ x.rotated.signs
          ∙ ap to_string exact;
      within =
          (is_subset_of_iff (unwrap_or x.rotated.granted x.wanted) x.rotated.granted).0
            (rw exact at (narrow-subset _ _ _ x.rotated.narrowed));
    }
