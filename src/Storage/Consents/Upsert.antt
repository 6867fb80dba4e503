-- ===== src/Storage/Consents/Upsert.antt =====
-- What the upsert of src/oauth/repo/consents.rs changes, and what it leaves alone.
use sharp_oauth.Prelude.{
  ◌≡◌, refl, ap, Bool, true, false, ◌&&◌, String, Option, none, some, List, [], ◌∷◌, Result, ok,
  arith, Bool-cases, inl, inr, eqb, eqb_refl, is_none, find,
}
use sharp_oauth.Error.{DbErr}
use sharp_oauth.Storage.{Uuid, Time, Db, Consent}
use sharp_oauth.Storage.Consents.{is_for, scopes_of, upsert_row, upsert, find_active}

abbrev is_active_for : Uuid → Uuid → Consent → Bool
is_active_for user_id client_id row = is_for user_id client_id row && is_none row.revoked_at

find-upsert_row :
    (consent : Consent) (rows : List Consent)
    → is_none consent.revoked_at ≡ true
    → scopes_of (find (is_active_for consent.user_id consent.client_id) (upsert_row consent rows))
      ≡ some consent.scopes
unfolding find upsert_row
find-upsert_row consent [] live =
    rw (eqb_refl consent.user_id, eqb_refl consent.client_id, live) refl
find-upsert_row consent (row ∷ rows) live =
    elim (Bool-cases (is_for consent.user_id consent.client_id row)) [
      | inl hit ↦ rw (hit, hit) refl
      | inr miss ↦ rw (miss, miss) (find-upsert_row consent rows live)
    ]

find-upsert_row_other :
    (consent : Consent) (user_id client_id : Uuid) (rows : List Consent)
    → is_for user_id client_id consent ≡ false
    → find (is_active_for user_id client_id) (upsert_row consent rows)
      ≡ find (is_active_for user_id client_id) rows
unfolding find upsert_row
find-upsert_row_other consent user_id client_id [] other = rw other refl
find-upsert_row_other consent user_id client_id (row ∷ rows) other =
    let rest = find-upsert_row_other consent user_id client_id rows other in
    elim (Bool-cases (is_for consent.user_id consent.client_id row)) [
      | inl hit ↦
          let apart : is_for user_id client_id row ≡ false = ground arith in rw (hit, apart) refl
      | inr miss ↦ rw (miss, rest) refl
    ]

abbrev found : Option (List String) → Result DbErr (Option (List String))
found o = ok o

-- After an upsert the pair's active consent lists the scopes given.
pub find_active-upsert :
    (id user_id client_id : Uuid) (scopes : List String) (now : Time) (d : Db)
    → (find_active user_id client_id (upsert id user_id client_id scopes now d).1).0
      ≡ ok (some scopes)
unfolding find_active upsert
find_active-upsert id user_id client_id scopes now d =
    ap (λ (o : Option (List String)). found o)
      (find-upsert_row
        (record {
          id = id;
          user_id = user_id;
          client_id = client_id;
          scopes = scopes;
          created_at = now;
          updated_at = now;
          revoked_at = none;
        })
        d.consents refl)

-- The consents of other pairs stay as they were.
pub find_active-upsert_other :
    (id user_id client_id other_user other_client : Uuid) (scopes : List String) (now : Time)
    (d : Db)
    → (eqb user_id other_user && eqb client_id other_client) ≡ false
    → (find_active other_user other_client (upsert id user_id client_id scopes now d).1).0
      ≡ (find_active other_user other_client d).0
unfolding find_active upsert
find_active-upsert_other id user_id client_id other_user other_client scopes now d other =
    ap (λ (o : Option Consent). found (scopes_of o))
      (find-upsert_row_other
        (record {
          id = id;
          user_id = user_id;
          client_id = client_id;
          scopes = scopes;
          created_at = now;
          updated_at = now;
          revoked_at = none;
        })
        other_user other_client d.consents other)
