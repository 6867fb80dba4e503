-- ===== src/OAuth/Consent/Record.antt =====
-- What src/oauth/services/consent.rs reads and records.
use sharp_oauth.Prelude.{
  ◌≡◌, refl, sym, ap, ap₂, ◌∙◌, ◌||◌, String, Option, none, some, List, [], Result, ok, arith, mem,
  unwrap_or,
}
use sharp_oauth.Error.{AppError, DbErr}
use sharp_oauth.Scope.{ScopeSet, from_iter}
use sharp_oauth.Scope.Members.{mem-union, mem-from_iter}
use sharp_oauth.Storage.{Uuid, Time, Db}
use sharp_oauth.Storage.Conn.{Conn, pure}
use sharp_oauth.Storage.Conn.Steps.{>>=-ok, after_pool}
use sharp_oauth.Storage.Consents.{find_active, upsert}
use sharp_oauth.OAuth.Consent.{granted_scopes, grant, collected, approved_with}

pub granted_scopes-ok :
    (user_id client_id : Uuid) (c : Conn) {granted : Option ScopeSet} {c' : Conn}
    → granted_scopes user_id client_id c ≡ (ok granted, c')
    → (names : Option (List String)) × ((find_active user_id client_id c.db).0 ≡ ok names)
      × (granted ≡ collected names)
      × (c'.db ≡ c.db)
unfolding granted_scopes find_active pure
granted_scopes-ok user_id client_id c h = after_pool _ c _ _ h λ names c₁ run rest. (
  names,
  ap (λ (o : Result DbErr (Option (List String)) × Db). o.0) run,
  ground (arith, rest),
  ap (λ (o : Result AppError (Option ScopeSet) × Conn). o.1.db) (sym rest)
      ∙ ap (λ (o : Result DbErr (Option (List String)) × Db). o.1) (sym run),
)

-- The consent that a grant records.
pub grant-ok :
    (user_id client_id : Uuid) (scopes : ScopeSet) (id : Uuid) (now : Time) (c : Conn) {c' : Conn}
    → grant user_id client_id scopes id now c ≡ (ok tt, c')
    → (names : Option (List String)) × ((find_active user_id client_id c.db).0 ≡ ok names)
      × (c'.db ≡ (upsert id user_id client_id (approved_with scopes (collected names)) now c.db).1)
unfolding grant upsert pure
grant-ok user_id client_id scopes id now c h =
    let (granted, c₁, asked, rest) = >>=-ok (granted_scopes user_id client_id) _ c h in
    let (names, stored, is_collected, same) = granted_scopes-ok user_id client_id c asked in
    after_pool _ c₁ _ _ rest λ _ c₂ run fin. (
      names,
      stored,
      ap (λ (o : Result AppError (Unit {0}) × Conn). o.1.db) (sym fin)
          ∙ ap (λ (o : Result DbErr (Unit {0}) × Db). o.1) (sym run)
          ∙ ap₂
              (λ (d : Db) (g : Option ScopeSet).
                (upsert id user_id client_id (approved_with scopes g) now d).1)
              same is_collected,
    )

pub approved_with-mem :
    (scopes : ScopeSet) (names : Option (List String)) (x : String)
    → mem x (approved_with scopes (collected names)) ≡ (mem x (unwrap_or [] names) || mem x scopes)
approved_with-mem scopes none x = refl
approved_with-mem scopes (some names) x =
    rw (mem-union x (from_iter names) scopes, mem-from_iter x names) refl
