-- ===== src/OAuth/Pkce.antt =====
-- src/oauth/services/pkce.rs: proof keys for code exchange.
pub mod Verifiers
use sharp_oauth.Prelude.{
  ℕ, ◌≤◌, ◌≡◌, ◌↔◌, Bool, true, ◌&&◌, ◌||◌, String, len, arith, leb, eqb, all_codes,
  is_alphanumeric,
}
use sharp_oauth.Platform.{Platform, ComparesTexts}
use sharp_oauth.Secret.{constant_time_eq}

abbrev pub s256 : String
s256 = "S256"

abbrev pub s256_challenge_len : ℕ
s256_challenge_len = 43

abbrev pub verifier_min_len : ℕ
verifier_min_len = 43

abbrev pub verifier_max_len : ℕ
verifier_max_len = 128

abbrev pub is_challenge_byte : ℕ → Bool
is_challenge_byte b = is_alphanumeric b || (eqb b b'-' || eqb b b'_')

abbrev pub is_verifier_byte : ℕ → Bool
is_verifier_byte b = is_alphanumeric b || (eqb b b'-' || (eqb b b'.' || (eqb b b'_' || eqb b b'~')))

unfoldable pub is_valid_s256_challenge : String → Bool
unfolding all_codes
is_valid_s256_challenge challenge =
    eqb (len challenge) s256_challenge_len && all_codes is_challenge_byte challenge

unfoldable pub is_valid_verifier : String → Bool
unfolding all_codes
is_valid_verifier verifier =
    (leb verifier_min_len (len verifier) && leb (len verifier) verifier_max_len)
    && all_codes is_verifier_byte verifier

unfoldable pub s256_challenge : Platform → String → String
s256_challenge p verifier = p.base64url (p.sha256 verifier)

unfoldable pub verify_s256 : Platform → String → String → Bool
unfolding is_valid_verifier s256_challenge constant_time_eq
verify_s256 p verifier challenge =
    is_valid_verifier verifier && constant_time_eq p (s256_challenge p verifier) challenge
