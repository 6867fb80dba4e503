-- ===== src/Storage/Users.antt =====
-- src/authentication/repo/users.rs
use sharp_oauth.Prelude.{Bool, ◌||◌, String, Option, [], ◌∷◌, ◌++◌, ◌==◌, eqb, find, any}
use sharp_oauth.Storage.{Uuid, Stmt, User, select, insert_unless}

-- The primary key and the unique `email`.
abbrev pub clashes : User → User → Bool
clashes user row = eqb row.id user.id || row.email == user.email

unfoldable pub insert : User → Stmt (Unit {0})
insert user d =
    insert_unless (any (clashes user) d.users) d (record d { users = d.users ++ user ∷ [] })

unfoldable pub find_by_email : String → Stmt (Option User)
find_by_email email = select (λ d. find (λ row. row.email == email) d.users)

unfoldable pub find_by_id : Uuid → Stmt (Option User)
find_by_id id = select (λ d. find (λ row. eqb row.id id) d.users)
