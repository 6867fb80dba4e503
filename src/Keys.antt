-- ===== src/Keys.antt =====
-- src/pkg/jwt_manager.rs: the signing keys, and how tokens are signed and verified with them. Files
-- are read elsewhere: `from_pems` takes the pairs of key id and PEM bytes.
pub mod Verify
use Prim.Native.Nat.{Ordering}
use sharp_oauth.Prelude.{
  ℕ, ◌-◌, Bool, true, false, not, ◌||◌, String, Option, none, some, List, [], ◌∷◌, ◌++◌, Result, ok,
  err, ◌>>?◌, ◌>>!◌, ok_or, reject_if, ◌==◌, eqb, length, get_elem?, position, and_then, is_empty,
  all_codes, is_alphanumeric, if◌then◌else◌, map,
}
use sharp_oauth.Prelude.Order.{lex}
use sharp_oauth.Platform.{Platform, Bytes, Claims, Header, rs256}

pub record SigningKey : Type 0 where
  pub kid : String
  pub encoding : ℕ
  pub decoding : ℕ
  pub public_jwk : ℕ

pub record SigningKeys : Type 0 where
  pub keys : List SigningKey
  pub active : ℕ

pub data KeyError : Type 0 where
  invalid_key_id not_rsa no_public_key no_verification_key unknown_active no_keys : KeyError

unfoldable pub insert_pem : String × Bytes → List (String × Bytes) → List (String × Bytes)
insert_pem pem [] = pem ∷ []
insert_pem pem (q ∷ pems) = elim (lex q.0 pem.0) [
  | Ordering.lt ↦ q ∷ insert_pem pem pems
  | _ ↦ pem ∷ q ∷ pems
]

-- `sort_by` on the key ids, which is stable.
unfoldable pub sort_by_kid : List (String × Bytes) → List (String × Bytes)
sort_by_kid [] = []
sort_by_kid (pem ∷ pems) = insert_pem pem (sort_by_kid pems)

abbrev is_kid_code : ℕ → Bool
is_kid_code c = is_alphanumeric c || (eqb c b'-' || (eqb c b'_' || eqb c b'.'))

unfoldable pub load_key : Platform → String × Bytes → Result KeyError SigningKey
load_key p (kid, pem) =
    reject_if (is_empty kid || not (all_codes is_kid_code kid)) invalid_key_id
    >>! (ok_or not_rsa (p.encoding_from_pem pem) >>? λ encoding.
        ok_or no_public_key (p.jwk_from_encoding encoding) >>? λ public_jwk.
        ok_or no_verification_key (p.decoding_from_jwk public_jwk) >>? λ decoding.
        ok
          (record { kid = kid; encoding = encoding; decoding = decoding; public_jwk = public_jwk }))

unfoldable pub load_keys : Platform → List (String × Bytes) → Result KeyError (List SigningKey)
load_keys p [] = ok []
load_keys p (pem ∷ pems) = load_key p pem >>? λ key. load_keys p pems >>? λ keys. ok (key ∷ keys)

-- Without a configured key id the last key signs, which has the greatest id.
abbrev pub choose_active : Option String → List SigningKey → Result KeyError ℕ
choose_active (some wanted) keys = ok_or unknown_active (position (λ key. key.kid == wanted) keys)
choose_active none [] = err no_keys
choose_active none (key ∷ keys) = ok (length keys)

unfoldable pub from_pems :
    Platform → List (String × Bytes) → Option String → Result KeyError SigningKeys
from_pems p pems active_kid = load_keys p (sort_by_kid pems) >>? λ keys.
    choose_active active_kid keys >>? λ active. ok (record { keys = keys; active = active })

-- `none` where signing fails, or where the code would index past the keys.
unfoldable pub sign : Platform → SigningKeys → String → Claims → Option String
sign p keys typ claims = and_then (get_elem? keys.keys keys.active) λ key.
    p.encode_jwt (record { alg = rs256; typ = some typ; kid = some key.kid }) claims key.encoding

-- The public keys.
unfoldable pub jwks : SigningKeys → List ℕ
jwks keys = map (λ key. key.public_jwk) keys.keys
