-- ===== src/OAuth/Token/Rotation/Families.antt =====
-- The families of refresh tokens as chains of rotations.
use sharp_oauth.Prelude.{
  ◌≡◌, sym, ap, ◌∙◌, ◌⊎◌, update_where, inl, inr, none, List, [], ◌∷◌, ◌++◌, ok, arith, eqb,
  Bool-cases, is_none,
}
use sharp_oauth.Prelude.Rows.{In, In-update_where, In-append}
use sharp_oauth.Scope.{offline_access, contains}
use sharp_oauth.Storage.{Uuid, Db, OAuthClient, RefreshToken}
use sharp_oauth.Storage.Conn.{Conn}
use sharp_oauth.Storage.RefreshTokens.{mark_rotated, rotate_to}
use sharp_oauth.State.{AppState}
use sharp_oauth.Tokens.Refresh.{new_row}
use sharp_oauth.Tokens.Refresh.Issue.{with_token}
use sharp_oauth.OAuth.Params.{Params}
use sharp_oauth.OAuth.Token.Response.{TokenResponse, TokenDraw}
use sharp_oauth.OAuth.Token.Code.{exchange_authorization_code}
use sharp_oauth.OAuth.Token.Code.Success.{exchange-Exchanged}
use sharp_oauth.OAuth.Token.Rotation.{exchange_refresh_token}
use sharp_oauth.OAuth.Token.Rotation.Success.{tables_after, next_token, exchange-Refreshed}

abbrev pub IsChained : List RefreshToken → Type 0
IsChained rows =
    (a b : RefreshToken)
    → In a rows
    → In b rows
    → a.family_id ≡ b.family_id
    → a.rotated_to_id ≡ none
    → b.rotated_to_id ≡ none
    → a.id ≡ b.id

-- The drawn family is a new one.
abbrev pub IsNewFamily : Uuid → List RefreshToken → Type 0
IsNewFamily family_id rows = (a : RefreshToken) → In a rows → ¬ (a.family_id ≡ family_id)

-- A row that the rotation left unrotated stood there before, or is the new one.
unrotated-cases :
    (id next_id : Uuid) (next : RefreshToken) (rows : List RefreshToken) (a : RefreshToken)
    → In a (update_where (λ row. eqb row.id id) (rotate_to next_id) (rows ++ next ∷ []))
    → a.rotated_to_id ≡ none
    → (¬ (a.id ≡ id)) × (In a rows ⊎ (next ≡ a))
unrotated-cases id next_id next rows a listed current =
    let (old, there, e) =
      In-update_where (λ row. eqb row.id id) (rotate_to next_id) (rows ++ next ∷ []) a listed in
    elim (Bool-cases (eqb old.id id)) [
      | inl hit ↦ absurd (ground (arith, ap (λ (x : RefreshToken). is_none x.rotated_to_id) e))
      | inr miss ↦
          let same : a ≡ old = rw miss at e in
          (
            ground (arith, ap (λ (x : RefreshToken). x.id) same),
            rw same (elim (In-append rows (next ∷ []) old there) [
              | inl before ↦ inl before
              | inr (inl new) ↦ inr new
              | inr (inr x) ↦ absurd x
            ]),
          )
    ]

tables_after-IsChained :
    (app : AppState) (client : OAuthClient) (row : RefreshToken) (draw : TokenDraw) (d : Db)
    → In row d.refresh_tokens
    → row.rotated_to_id ≡ none
    → IsChained d.refresh_tokens
    → IsChained (tables_after app client row draw d).refresh_tokens
unfolding mark_rotated new_row
tables_after-IsChained app client row draw d listed current chained a b in_a in_b family open_a
      open_b =
    let next = next_token app client row draw in
    let (other_a, from_a) =
      unrotated-cases row.id draw.token_id next d.refresh_tokens a in_a open_a in
    let (other_b, from_b) =
      unrotated-cases row.id draw.token_id next d.refresh_tokens b in_b open_b in
    elim from_a [
      | inl old_a ↦ elim from_b [
        | inl old_b ↦ chained a b old_a old_b family open_a open_b
        | inr new_b ↦ absurd (
            other_a (
              chained a row old_a listed
                (family ∙ ap (λ (x : RefreshToken). x.family_id) (sym new_b)) open_a current))
      ]
      | inr new_a ↦ elim from_b [
        | inl old_b ↦ absurd (
            other_b (
              chained b row old_b listed
                (sym family ∙ ap (λ (x : RefreshToken). x.family_id) (sym new_a)) open_b current))
        | inr new_b ↦ ap (λ (x : RefreshToken). x.id) (sym new_a ∙ new_b)
      ]
    ]

-- A refresh that succeeds keeps every family a chain: at most one token of it is not rotated.
pub refresh-IsChained :
    (app : AppState) (client : OAuthClient) (params : Params) (draw : TokenDraw) (c c' : Conn)
    (r : TokenResponse)
    → exchange_refresh_token app client params draw c ≡ (ok r, c')
    → IsChained c.db.refresh_tokens
    → IsChained c'.db.refresh_tokens
refresh-IsChained app client params draw c c' r h chained =
    let x = exchange-Refreshed app client params draw c c' r h in
    rw x.rotated.tables
      (tables_after-IsChained app client x.row draw c.db x.listed x.current chained)

with_token-IsChained :
    (token : RefreshToken) (d : Db)
    → IsNewFamily token.family_id d.refresh_tokens
    → IsChained d.refresh_tokens
    → IsChained (with_token token d).refresh_tokens
with_token-IsChained token d new chained a b in_a in_b family open_a open_b =
    elim (In-append d.refresh_tokens (token ∷ []) a in_a) [
      | inl old_a ↦ elim (In-append d.refresh_tokens (token ∷ []) b in_b) [
        | inl old_b ↦ chained a b old_a old_b family open_a open_b
        | inr (inl new_b) ↦
            absurd (new a old_a (family ∙ ap (λ (x : RefreshToken). x.family_id) (sym new_b)))
        | inr (inr x) ↦ absurd x
      ]
      | inr (inl new_a) ↦ elim (In-append d.refresh_tokens (token ∷ []) b in_b) [
        | inl old_b ↦
            absurd (new b old_b (sym family ∙ ap (λ (x : RefreshToken). x.family_id) (sym new_a)))
        | inr (inl new_b) ↦ ap (λ (x : RefreshToken). x.id) (sym new_a ∙ new_b)
        | inr (inr x) ↦ absurd x
      ]
      | inr (inr x) ↦ absurd x
    ]

-- An exchange of a code that succeeds keeps every family a chain, if the family id that it draws
-- is a new one.
pub exchange-IsChained :
    (app : AppState) (client : OAuthClient) (params : Params) (draw : TokenDraw) (c c' : Conn)
    (r : TokenResponse)
    → exchange_authorization_code app client params draw c ≡ (ok r, c')
    → IsNewFamily draw.family_id c.db.refresh_tokens
    → IsChained c.db.refresh_tokens
    → IsChained c'.db.refresh_tokens
unfolding new_row
exchange-IsChained app client params draw c c' r h new chained =
    let x = exchange-Exchanged app client params draw c c' r h in
    rw x.issued.tables (elim (Bool-cases (contains x.issued.scope offline_access)) [
      | inl offline ↦ rw offline (with_token-IsChained _ c.db new chained)
      | inr online ↦ rw online chained
    ])
