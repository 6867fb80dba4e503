-- ===== src/OAuth/Consent/Ledger.antt =====
-- What src/oauth/services/consent.rs promises: approvals add up, whoever else approves what.
use sharp_oauth.Prelude.{
  ◌≡◌, refl, sym, ap, ◌∙◌, Bool, ◌&&◌, ◌||◌, String, Option, none, some, List, [], ◌∷◌, Result, ok,
  err, arith, mem, eqb, unwrap_or, Bool-cases, inl, inr, Result-cases,
}
use sharp_oauth.Error.{AppError, DbErr}
use sharp_oauth.Scope.{ScopeSet}
use sharp_oauth.Scope.Members.{mem-from_iter}
use sharp_oauth.Storage.{Uuid, Time, Db}
use sharp_oauth.Storage.Conn.{Conn, ◌>>=◌}
use sharp_oauth.Storage.Consents.{find_active, upsert}
use sharp_oauth.Storage.Consents.Upsert.{find_active-upsert, find_active-upsert_other}
use sharp_oauth.OAuth.Consent.{granted_scopes, grant, collected, approved_with}
use sharp_oauth.OAuth.Consent.Record.{grant-ok, approved_with-mem, granted_scopes-ok}

-- One call of `grant`, with what it draws.
pub record Approval : Type 0 where
  pub user_id : Uuid
  pub client_id : Uuid
  pub scopes : ScopeSet
  pub id : Uuid
  pub now : Time

-- The abstract view: which names a user has approved for a client.
abbrev pub Ledger : Type 0
Ledger = Uuid → Uuid → String → Bool

unfoldable pub approve : Approval → Ledger → Ledger
approve a ledger user_id client_id name =
    ledger user_id client_id name
    || ((eqb a.user_id user_id && eqb a.client_id client_id) && mem name a.scopes)

unfoldable pub approve_all : List Approval → Ledger → Ledger
approve_all [] ledger = ledger
approve_all (a ∷ approvals) ledger = approve_all approvals (approve a ledger)

abbrev pub granting : Approval → Conn → Result AppError (Unit {0}) × Conn
granting a = grant a.user_id a.client_id a.scopes a.id a.now

-- The calls one after the other, whatever becomes of each.
unfoldable pub grant_all : List Approval → Conn → Conn
grant_all [] c = c
grant_all (a ∷ approvals) c = grant_all approvals (granting a c).1

abbrev counted : Approval → List Approval → Result AppError (Unit {0}) → List Approval
counted a approvals (ok _) = a ∷ approvals
counted a approvals (err _) = approvals

-- The calls that answered with success.
unfoldable pub accepted : List Approval → Conn → List Approval
accepted [] c = []
accepted (a ∷ approvals) c = counted a (accepted approvals (granting a c).1) (granting a c).0

abbrev names_of : Result DbErr (Option (List String)) → List String
names_of (ok names) = unwrap_or [] names
names_of (err e) = []

-- The ledger that the tables stand for.
unfoldable pub on_record : Db → Ledger
on_record d user_id client_id name = mem name (names_of (find_active user_id client_id d).0)

grant-fails :
    (a : Approval) (c : Conn) (e : AppError) → (granting a c).0 ≡ err e → (granting a c).1.db ≡ c.db
unfolding grant granted_scopes find_active upsert ◌>>=◌
grant-fails a c e h = ground arith

-- A successful call, seen through the ledger.
grant-on_record :
    (a : Approval) (c : Conn) (user_id client_id : Uuid) (name : String)
    → (granting a c).0 ≡ ok tt
    → on_record (granting a c).1.db user_id client_id name
      ≡ approve a (on_record c.db) user_id client_id name
unfolding on_record approve
grant-on_record a c user_id client_id name h =
    let (names, stored, same) =
      grant-ok a.user_id a.client_id a.scopes a.id a.now c (λ i. (h i, (granting a c).1)) in
    elim (Bool-cases (eqb a.user_id user_id && eqb a.client_id client_id)) [
      | inl own ↦
          let is_user : a.user_id ≡ user_id = ground arith in
          let is_client : a.client_id ≡ client_id = ground arith in
          rw
            (
              same,
              own,
              sym is_user,
              sym is_client,
              find_active-upsert a.id a.user_id a.client_id
                  (approved_with a.scopes (collected names)) a.now c.db,
              stored,
            )
            (approved_with-mem a.scopes names name)
      | inr other ↦
          rw
            (
              same,
              other,
              find_active-upsert_other a.id a.user_id a.client_id user_id client_id
                  (approved_with a.scopes (collected names)) a.now c.db other,
            )
            (ground arith)
    ]

-- One call, whatever it answers.
granting-on_record :
    (a : Approval) (c : Conn) (later : List Approval) (ledger : Ledger)
    → ledger ≡ on_record c.db
    → approve_all (counted a later (granting a c).0) ledger
      ≡ approve_all later (on_record (granting a c).1.db)
unfolding approve_all
granting-on_record a c later ledger same = elim (Result-cases (granting a c).0) [
  | inl (done, h) ↦
      rw (h, same)
        (ap (approve_all later)
          (λ i user_id client_id name. sym (grant-on_record a c user_id client_id name h) i))
  | inr (e, h) ↦ rw (h, same, grant-fails a c e h) refl
]

grant_all-on_record :
    (approvals : List Approval) (c : Conn)
    → on_record (grant_all approvals c).db ≡ approve_all (accepted approvals c) (on_record c.db)
unfolding grant_all accepted approve_all
grant_all-on_record [] c = refl
grant_all-on_record (a ∷ approvals) c =
    grant_all-on_record approvals (granting a c).1
    ∙ sym (granting-on_record a c (accepted approvals (granting a c).1) (on_record c.db) refl)

collected-mem :
    (names : Option (List String)) (x : String)
    → mem x (unwrap_or [] (collected names)) ≡ mem x (unwrap_or [] names)
collected-mem none x = refl
collected-mem (some names) x = mem-from_iter x names

granted_scopes-on_record :
    (user_id client_id : Uuid) (c c' : Conn) (granted : Option ScopeSet) (name : String)
    → granted_scopes user_id client_id c ≡ (ok granted, c')
    → mem name (unwrap_or [] granted) ≡ on_record c.db user_id client_id name
unfolding on_record
granted_scopes-on_record user_id client_id c c' granted name h =
    let (names, stored, is_collected, _) = granted_scopes-ok user_id client_id c h in
    rw (is_collected, stored) (collected-mem names name)

-- The consent service implements a ledger: after any approvals by any users for any clients, one
-- after the other and some of them refused by the database, the scopes that it reads for a user and a client are those on
-- record before and those of the approvals of this pair that were answered with success.
pub grant_all-granted_scopes :
    (approvals : List Approval) (c c' : Conn) (user_id client_id : Uuid) (granted : Option ScopeSet)
    (name : String)
    → granted_scopes user_id client_id (grant_all approvals c) ≡ (ok granted, c')
    → mem name (unwrap_or [] granted)
      ≡ approve_all (accepted approvals c) (on_record c.db) user_id client_id name
grant_all-granted_scopes approvals c c' user_id client_id granted name h =
    granted_scopes-on_record user_id client_id (grant_all approvals c) c' granted name h
    ∙ ap (λ (ledger : Ledger). ledger user_id client_id name) (grant_all-on_record approvals c)
