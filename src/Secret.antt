-- ===== src/Secret.antt =====
-- src/shared/secret.rs: opaque secrets and their hashes.
use sharp_oauth.Prelude.{Bool, String}
use sharp_oauth.Platform.{Platform, Bytes}

-- `bytes` are the 32 bytes that the random generator fills in.
unfoldable pub generate_token : Platform → Bytes → String
generate_token p bytes = p.base64url bytes

unfoldable pub hash_token : Platform → String → String
hash_token p token = p.base64url (p.sha256 token)

unfoldable pub constant_time_eq : Platform → String → String → Bool
constant_time_eq p a b = p.ct_eq a b
