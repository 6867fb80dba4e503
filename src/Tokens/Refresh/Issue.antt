-- ===== src/Tokens/Refresh/Issue.antt =====
-- What a successful `issue` does to the tables of the transaction.
use sharp_oauth.Prelude.{◌≡◌, false, String, [], ◌∷◌, ◌++◌, ok, arith, any, Bool-cases, inl, inr}
use sharp_oauth.Error.{DbErr}
use sharp_oauth.Platform.{Platform, Bytes}
use sharp_oauth.Secret.{generate_token}
use sharp_oauth.Storage.{Uuid, Time, Db, RefreshToken}
use sharp_oauth.Storage.RefreshTokens
use sharp_oauth.Storage.RefreshTokens.{clashes}
use sharp_oauth.Storage.Conn.{Conn, M, pure, ◌>>=◌}
use sharp_oauth.Storage.Conn.Steps.{>>=-ok, after_tx}
use sharp_oauth.Tokens.Refresh.{NewRefreshToken, new_row, issue}

-- The tables with one more refresh token.
abbrev pub with_token : RefreshToken → Db → Db
with_token token d = record d { refresh_tokens = d.refresh_tokens ++ token ∷ [] }

pub insert-ok :
    (token : RefreshToken) (d d' : Db)
    → RefreshTokens.insert token d ≡ (ok tt, d')
    → (any (clashes token) d.refresh_tokens ≡ false) × (d' ≡ with_token token d)
unfolding RefreshTokens.insert
insert-ok token d d' h = elim (Bool-cases (any (clashes token) d.refresh_tokens)) [
  | inl clash ↦ absurd (ground arith)
  | inr free ↦ (free, ground arith)
]

module _ {E : Type 0} (f : DbErr → E) (p : Platform) (new : NewRefreshToken) (bytes : Bytes)
    (id : Uuid) (now : Time) where
  abbrev row : RefreshToken
  row = new_row p new bytes id now

  -- A block that issues a token and succeeds, from the insertion on.
  pub after_issue :
      {B P : Type 0} {b : B} {c' : Conn} (k : String × RefreshToken → M E B) (c : Conn)
      → (issue f p new bytes id now >>= k) c ≡ (ok b, c')
      → ((c₁ : Conn)
          → c₁.tx ≡ with_token row c.tx
          → any (clashes row) c.tx.refresh_tokens ≡ false
          → c₁.db ≡ c.db
          → k (generate_token p bytes, row) c₁ ≡ (ok b, c')
          → P)
      → P
  unfolding issue pure
  after_issue k c h next =
      let (a, c₁, e, rest) = >>=-ok (issue f p new bytes id now) k c h in
      after_tx _ _ _ _ e λ _ c₂ ran same fin.
        let (free, grown) = insert-ok row c.tx c₂.tx ran in
        let made : (generate_token p bytes, row) ≡ a = ground (arith, fin) in
        let there : c₂ ≡ c₁ = ground (arith, fin) in
        next c₂ grown free same (cc (rest, made, there))
