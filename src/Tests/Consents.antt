-- ===== src/Tests/Consents.antt =====
-- A run of approvals, one of which the database refuses.
use sharp_oauth.Prelude.{
  ℕ, ◌≡◌, refl, Bool, String, Option, some, List, [], ◌∷◌, ok, mem, unwrap_or,
}
use sharp_oauth.Scope.{ScopeSet}
use sharp_oauth.Storage.Conn.{Conn}
use sharp_oauth.OAuth.Consent.{granted_scopes}
use sharp_oauth.OAuth.Consent.Ledger.{
  Approval, approve_all, accepted, grant_all, on_record, grant_all-granted_scopes,
}
use sharp_oauth.Tests.World.{tables, failing_at, approval}

abbrev of_user : ℕ → ScopeSet → Approval
of_user user_id scopes = record {
  user_id = user_id;
  client_id = 10;
  scopes = scopes;
  id = 72;
  now = 30;
}

-- The third call to the database, which the second approval makes, fails.
abbrev approvals : List Approval
approvals =
    of_user 20 ("email" ∷ []) ∷ of_user 20 ("profile" ∷ []) ∷ of_user 21 ("profile" ∷ []) ∷ []

abbrev conn : Conn
conn = failing_at 2 (tables [] [] (approval ∷ []))

abbrev both : ScopeSet
both = "email" ∷ "openid" ∷ []

reads :
    granted_scopes 20 10 (grant_all approvals conn)
    ≡ (ok (some both), (granted_scopes 20 10 (grant_all approvals conn)).1)
unfolding grant_all granted_scopes sharp_oauth.OAuth.Consent.grant
    sharp_oauth.Storage.Consents.find_active sharp_oauth.Storage.Consents.upsert
    sharp_oauth.Storage.Consents.upsert_row sharp_oauth.Storage.Conn.◌>>=◌ sharp_oauth.Prelude.find
    sharp_oauth.Scope.from_iter sharp_oauth.Scope.union
reads = refl

grant_all-granted_scopes_example :
    mem "email" both ≡ approve_all (accepted approvals conn) (on_record conn.db) 20 10 "email"
grant_all-granted_scopes_example =
    grant_all-granted_scopes approvals conn (granted_scopes 20 10 (grant_all approvals conn)).1 20
      10 (some both) "email" reads
