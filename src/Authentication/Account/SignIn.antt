-- ===== src/Authentication/Account/SignIn.antt =====
-- What a sign-up stores and whom a sign-in lets through.
use sharp_oauth.Prelude.{
  ◌≡◌, ◌≤◌, sym, ap, ◌∙◌, true, false, String, len, count, Option, none, some, List, [], ◌∷◌, ◌++◌,
  Result, ok, arith, Bool-cases, Option-cases, inl, inr, find, any, ◌==◌, eq_iff,
}
use sharp_oauth.Prelude.Rows.{In, None, find-In, find-passes}
use sharp_oauth.Error.{AppError}
use sharp_oauth.Platform.{Platform, Bytes}
use sharp_oauth.Storage.{Uuid, Time, Db, User}
use sharp_oauth.Storage.Users
use sharp_oauth.Storage.Users.{clashes, find_by_email}
use sharp_oauth.Storage.Conn.{Conn, pure}
use sharp_oauth.Storage.Conn.Steps.{>>=-ok, after_lift, after_or, after_pool, on_pool-ok}
use sharp_oauth.Authentication.Account.{
  NewAccount, SignUpError, normalize_email, shown_name, new_user, sign_up, find_user, hash_of,
  authenticate,
}

-- An account with an address that nobody had.
pub record SignedUp (p : Platform) (account : NewAccount) (before after : Db) (user : User)
    : Type 0 where
  pub address : normalize_email p account.email ≡ some user.email
  pub long : 8 ≤ count account.password
  pub short : len account.password ≤ 1024
  pub unverified : user.email_verified ≡ false
  pub free : any (clashes user) before.users ≡ false
  pub new_address : None (λ (row : User). row.email == user.email) before.users
  pub stored : after ≡ record before { users = before.users ++ user ∷ [] }

-- An account that clashes with none has an address of its own.
free-None :
    (user : User) (rows : List User)
    → any (clashes user) rows ≡ false
    → None (λ row. row.email == user.email) rows
unfolding any
free-None user [] h = tt
free-None user (row ∷ rows) h = (ground arith, free-None user rows (ground arith))

insert-ok :
    (user : User) (d d' : Db)
    → Users.insert user d ≡ (ok tt, d')
    → (any (clashes user) d.users ≡ false) × (d' ≡ record d { users = d.users ++ user ∷ [] })
unfolding Users.insert
insert-ok user d d' h = elim (Bool-cases (any (clashes user) d.users)) [
  | inl clash ↦ absurd (ground arith)
  | inr free ↦ (free, ground arith)
]

-- A successful sign-up has a valid address that no account had and a password of 8 characters to
-- 1024 bytes; it stores the account, not verified, and changes nothing else.
pub sign_up-SignedUp :
    (p : Platform) (account : NewAccount) (salt : Bytes) (id : Uuid) (now : Time) (c c' : Conn)
    (user : User)
    → sign_up p account salt id now c ≡ (ok user, c')
    → SignedUp p account c.db c'.db user
unfolding sign_up pure
sign_up-SignedUp p account salt id now c c' user h = after_or _ c _ _ h λ email given h₁.
    after_lift _ c _ h₁ λ _ password h₂. after_lift _ c _ h₂ λ _ named h₃.
      after_or _ c _ _ h₃ λ hash hashed h₄. after_pool _ c _ _ h₄ λ _ c₁ run fin.
        let (free, stored) = insert-ok _ c.db c₁.db run in
        let is_user : new_user email hash (shown_name p account.display_name) id now ≡ user =
          ground (arith, fin) in
        record {
          address = given ∙ ap some (ap (λ (x : User). x.email) is_user);
          long = ground (arith, password);
          short = ground (arith, password);
          unverified = ap (λ (x : User). x.email_verified) (sym is_user);
          free = rw (← is_user) free;
          new_address = free-None user c.db.users (rw (← is_user) free);
          stored =
              ap (λ (o : Result SignUpError User × Conn). o.1.db) (sym fin)
              ∙ stored
              ∙ ap (λ (u : User). record c.db { users = c.db.users ++ u ∷ [] }) is_user;
        }

-- A user who may sign in.
pub record IsKnown (p : Platform) (d : Db) (email password : String) (user : User) : Type 0 where
  pub address : normalize_email p email ≡ some user.email
  pub listed : In user d.users
  pub verified : p.verify_password password user.password_hash ≡ some true

find_user-ok :
    (address : Option String) (c c₁ : Conn) (user : User)
    → find_user address c ≡ (ok (some user), c₁)
    → (address ≡ some user.email) × In user c.db.users
unfolding find_user find_by_email pure
find_user-ok none c c₁ user h = ground arith
find_user-ok (some email) c c₁ user h =
    let ran = on_pool-ok _ _ c h in
    let hit : find (λ (row : User). row.email == email) c.db.users ≡ some user =
      ground (arith, ran) in
    (ap some (sym ((eq_iff user.email email).0 (find-passes _ _ user hit))), find-In _ _ user hit)

abbrev answered : Conn → Option User → Result AppError (Option User) × Conn
answered c found = (ok found, c)

-- A sign-in lets through only a stored account with the normalised address whose stored hash
-- verifies the password; for an unknown address it never succeeds, whatever the dummy hash says.
pub authenticate-IsKnown :
    (p : Platform) (dummy email password : String) (c c' : Conn) (user : User)
    → authenticate p dummy email password c ≡ (ok (some user), c')
    → IsKnown p c.db email password user
unfolding authenticate pure
authenticate-IsKnown p dummy email password c c' user h =
    let (found, c₁, looked, rest) = >>=-ok (find_user (normalize_email p email)) _ c h in
    after_or _ c₁ _ _ rest λ password_ok verified fin. elim (Option-cases found) [
      | inl unknown ↦ absurd (ground (arith, fin))
      | inr (account, is_account) ↦
          let passed : password_ok ≡ true = ground (arith, fin) in
          let is_user : account ≡ user = ground (arith, fin) in
          let (address, listed) =
            find_user-ok (normalize_email p email) c c₁ user
              (looked ∙ ap (answered c₁) (is_account ∙ ap some is_user)) in
          record {
            address = address;
            listed = listed;
            verified =
                ap (λ (u : User). p.verify_password password u.password_hash) (sym is_user)
                ∙ ap (λ (o : Option User). p.verify_password password (hash_of dummy o))
                    (sym is_account)
                ∙ verified
                ∙ ap some passed;
          }
    ]
