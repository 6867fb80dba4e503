-- ===== src/Keys/Verify.antt =====
-- `SigningKeys::verify`, at the claims of access tokens, the only ones that the server verifies.
use sharp_oauth.Prelude.{
  not, String, [], ◌∷◌, Result, ◌>>?◌, ◌>>!◌, ok_or, reject_if, ◌==◌, is_some_and, find,
  eq_ignore_ascii_case,
}
use sharp_oauth.Platform.{Platform, Validation, AccessTokenClaims, rs256}
use sharp_oauth.Storage.{Time}
use sharp_oauth.Keys.{SigningKeys}

pub data VerifyError : Type 0 where
  unknown_key wrong_type invalid : VerifyError

unfoldable pub verify :
    Platform
    → SigningKeys
    → String
    → String
    → Validation
    → Time
    → Result VerifyError AccessTokenClaims
verify p keys token expected_typ validation now =
    ok_or invalid (p.decode_header token) >>? λ header.
    reject_if (not (is_some_and header.typ (λ typ. eq_ignore_ascii_case typ expected_typ)))
      wrong_type
    >>! (ok_or unknown_key header.kid >>? λ kid.
        ok_or unknown_key (find (λ key. key.kid == kid) keys.keys) >>? λ key.
        ok_or invalid
          (p.decode_access token key.decoding (record validation { algorithms = rs256 ∷ [] }) now))
