-- ===== src/OAuth/Authorization/Decision/Issue.antt =====
-- The steps of a decision that touch the tables: the look at a consent, and the stored code.
use sharp_oauth.Prelude.{
  ◌≡◌, sym, ap, ◌∙◌, String, [], ◌∷◌, ◌++◌, ok, arith, any, Bool-cases, inl, inr,
}
use sharp_oauth.Storage.{Db, User, Session, AuthorizationCode}
use sharp_oauth.Storage.Codes
use sharp_oauth.Storage.Codes.{clashes}
use sharp_oauth.Storage.Conn.{Conn}
use sharp_oauth.Storage.Conn.Steps.{after_pool, lift-ok}
use sharp_oauth.State.{AppState}
use sharp_oauth.OAuth.Authorization.Validation.{ValidatedRequest}
use sharp_oauth.OAuth.Authorization.Decision.{AuthorizationDraw, new_code, issue_code}

-- The tables with one more code.
abbrev pub with_code : AuthorizationCode → Db → Db
with_code code d = record d { codes = d.codes ++ code ∷ [] }

insert-ok :
    (code : AuthorizationCode) (d d' : Db)
    → Codes.insert code d ≡ (ok tt, d')
    → d' ≡ with_code code d
unfolding Codes.insert
insert-ok code d d' h = elim (Bool-cases (any (clashes code) d.codes)) [
  | inl clash ↦ absurd (ground arith)
  | inr free ↦ ground arith
]

pub issue_code-ok :
    (app : AppState) (v : ValidatedRequest) (user : User) (session : Session)
    (draw : AuthorizationDraw) (c : Conn) {url : String} {c' : Conn}
    → issue_code app v user session draw c ≡ (ok url, c')
    → c'.db ≡ with_code (new_code app.platform v user session draw) c.db
unfolding issue_code
issue_code-ok app v user session draw c h = after_pool _ c _ _ h λ _ c₁ run rest.
    let (_, same) = lift-ok _ c₁ rest in
    ap (λ (x : Conn). x.db) (sym same) ∙ insert-ok _ c.db c₁.db run
