-- ===== src/Storage/RefreshTokens/Revocation.antt =====
-- What the revoking statements of src/token/repo/refresh_tokens.rs leave behind.
use sharp_oauth.Prelude.{
  ◌≡◌, refl, ap, Bool, true, false, some, arith, Bool-cases, inl, inr, ◌&&◌, eqb, eqb_refl, is_none,
}
use sharp_oauth.Prelude.Rows.{In, In-update_where, In-any}
use sharp_oauth.Storage.{Uuid, Time, Db, RefreshToken}
use sharp_oauth.Storage.RefreshTokens.{
  revoke_at, revoke_rows, revoke_family, descends_from, revoke_by_authorization_code,
}

-- A test that a revocation does not change holds of no live row afterwards.
revoke_rows-revokes :
    (chosen : RefreshToken → Bool) (now : Time) (d : Db) (token : RefreshToken)
    → ((row : RefreshToken) → chosen (revoke_at now row) ≡ chosen row)
    → In token (revoke_rows chosen now d).1.refresh_tokens
    → chosen token ≡ true
    → is_none token.revoked_at ≡ false
unfolding revoke_rows
revoke_rows-revokes chosen now d token stable listed h =
    let (row, _, e) =
      In-update_where (λ row. chosen row && is_none row.revoked_at) (revoke_at now) d.refresh_tokens
        token listed in
    let same = stable row in
    elim (Bool-cases (chosen row && is_none row.revoked_at)) [
      | inl hit ↦ ground (arith, ap (λ (x : RefreshToken). is_none x.revoked_at) e)
      | inr miss ↦ ground (arith, ap (λ (x : RefreshToken). is_none x.revoked_at) e, ap chosen e)
    ]

-- The family is dead.
pub revoke_family-revokes :
    (family_id : Uuid) (now : Time) (d : Db) (token : RefreshToken)
    → In token (revoke_family family_id now d).1.refresh_tokens
    → token.family_id ≡ family_id
    → is_none token.revoked_at ≡ false
unfolding revoke_family
revoke_family-revokes family_id now d token listed same =
    revoke_rows-revokes (λ row. eqb row.family_id family_id) now d token (λ row. refl) listed
      (ground arith)

-- Every token of a family that the code started is dead.
pub revoke_by_authorization_code-revokes :
    (id : Uuid) (now : Time) (d : Db) (first token : RefreshToken)
    → In first d.refresh_tokens
    → first.authorization_code_id ≡ some id
    → In token (revoke_by_authorization_code id now d).1.refresh_tokens
    → token.family_id ≡ first.family_id
    → is_none token.revoked_at ≡ false
unfolding revoke_by_authorization_code descends_from
revoke_by_authorization_code-revokes id now d first token stored starts listed same =
    revoke_rows-revokes (descends_from id d.refresh_tokens) now d token (λ row. refl) listed
      (In-any _ d.refresh_tokens first stored (rw starts (ground (arith, eqb_refl id))))
