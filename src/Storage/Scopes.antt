-- ===== src/Storage/Scopes.antt =====
-- src/oauth/repo/scopes.rs
use Prim.Native.Nat.{Ordering}
use sharp_oauth.Prelude.{String, List, [], ◌∷◌, filter, mem}
use sharp_oauth.Prelude.Order.{lex}
use sharp_oauth.Storage.{Stmt, ScopeDescription, select}

unfoldable pub insert_by_name : ScopeDescription → List ScopeDescription → List ScopeDescription
insert_by_name row [] = row ∷ []
insert_by_name row (r ∷ rows) = elim (lex r.name row.name) [
  | Ordering.lt ↦ r ∷ insert_by_name row rows
  | _ ↦ row ∷ r ∷ rows
]

-- `ORDER BY name`.
unfoldable pub by_name : List ScopeDescription → List ScopeDescription
by_name [] = []
by_name (r ∷ rows) = insert_by_name r (by_name rows)

unfoldable pub list_all : Stmt (List ScopeDescription)
list_all = select (λ d. by_name d.scopes)

unfoldable pub find_by_names : List String → Stmt (List ScopeDescription)
find_by_names names = select (λ d. by_name (filter (λ row. mem row.name names) d.scopes))
