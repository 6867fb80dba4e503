-- ===== src/Tokens/Access/RoundTrip.antt =====
-- An access token that is issued here is accepted here.
use sharp_oauth.Prelude.{
  ℕ, ◌≡◌, refl, ◌/◌, ◌<◌, String, some, [], ◌∷◌, ok, arith, ◌==◌, find, get_elem?,
  eq_ignore_ascii_case,
}
use sharp_oauth.Platform.{Platform, AccessTokenClaims, Header, Validation, Claims, access, rs256}
use sharp_oauth.Storage.{Uuid, Time, second}
use sharp_oauth.Scope.{ScopeSet}
use sharp_oauth.Scope.Wire.{IsWire, parse-to_string}
use sharp_oauth.Keys.{SigningKey, SigningKeys, sign}
use sharp_oauth.Keys.Verify
use sharp_oauth.Tokens.Access.{jwt_type, new, scopes, issue, verify}

-- jsonwebtoken: a token is read back with the header and, with the public key of the key that
-- signed it, the claims that it was made of, as long as issuer and audience are the expected ones
-- and it has not expired.
pub record ReadsTokens (p : Platform) : Type 0 where
  pub header :
      (h : Header) (claims : Claims) (encoding : ℕ) (token : String)
      → p.encode_jwt h claims encoding ≡ some token
      → p.decode_header token ≡ some h
  pub claims :
      (h : Header) (claims : AccessTokenClaims) (encoding decoding public_jwk : ℕ) (token : String)
      (v : Validation) (now : Time)
      → p.encode_jwt h (access claims) encoding ≡ some token
      → p.jwk_from_encoding encoding ≡ some public_jwk
      → p.decoding_from_jwk public_jwk ≡ some decoding
      → v.algorithms ≡ h.alg ∷ []
      → v.issuer ≡ claims.iss
      → v.audience ≡ claims.aud
      → now / second < claims.exp
      → p.decode_access token decoding v now ≡ some claims

-- The active key is the loaded key of its id, and its two public forms are its own.
pub record IsActive (p : Platform) (keys : SigningKeys) (key : SigningKey) : Type 0 where
  pub active : get_elem? keys.keys keys.active ≡ some key
  pub named : find (λ (k : SigningKey). k.kid == key.kid) keys.keys ≡ some key
  pub public : p.jwk_from_encoding key.encoding ≡ some key.public_jwk
  pub verifies : p.decoding_from_jwk key.public_jwk ≡ some key.decoding

module _ (p : Platform) (keys : SigningKeys) (key : SigningKey) (issuer : String) (user_id : Uuid)
    (client_id : String) (scope : ScopeSet) (auth_time issued_at : Time) (jti : Uuid) where
  abbrev made : AccessTokenClaims
  made = new p issuer user_id client_id scope auth_time issued_at jti

  scopes-new : IsWire scope → scopes made ≡ scope
  unfolding scopes new
  scopes-new wire = rw (scopes, parse-to_string scope wire) refl

  -- An access token that was signed with the active key verifies with the same keys and issuer
  -- until it expires, and reads as the claims that it was made of, the scopes included.
  pub issue-verify :
      (token : String) (now : Time)
      → ReadsTokens p
      → IsActive p keys key
      → IsWire scope
      → issue p keys made ≡ some token
      → now / second < made.exp
      → (verify p keys issuer token now ≡ ok made) × (scopes made ≡ scope)
  unfolding issue sign verify Verify.verify new eq_ignore_ascii_case
  issue-verify token now reads active wire h fresh =
      let signed : p.encode_jwt (record { alg = rs256; typ = some jwt_type; kid = some key.kid })
            (access made) key.encoding
          ≡ some token =
        ground (arith, active.active) in
      let head = reads.header _ (access made) key.encoding token signed in
      let body =
        reads.claims _ made key.encoding key.decoding key.public_jwk token
          (record {
            algorithms = rs256 ∷ [];
            issuer = issuer;
            audience = issuer;
            required = "exp" ∷ "iss" ∷ "aud" ∷ "sub" ∷ [];
            leeway = 0;
          })
          now signed active.public active.verifies refl refl refl fresh in
      (rw (head, active.named, body) refl, scopes-new wire)
