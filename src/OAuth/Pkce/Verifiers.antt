-- ===== src/OAuth/Pkce/Verifiers.antt =====
-- The verifiers that src/oauth/services/pkce.rs accepts, against RFC 7636 §4.1 and §4.6.
use Prim.Native.Char.{len_utf8, len_utf8_def}
use Prim.Native.String.{[], ◌∷◌}
use Prim.Native.String.len
use Prim.Native.String.count
use sharp_oauth.Prelude.{
  ℕ, zero, suc, ◌≤◌, ◌<◌, ◌≡◌, ◌↔◌, refl, sym, ap, ◌∙◌, Bool, true, false, not, ◌&&◌, String, len,
  count, arith, ltb, eqb, all_codes, any_code, Bool-cases, inl, inr, if◌then◌else◌,
}
use sharp_oauth.Platform.{Platform, ComparesTexts}
use sharp_oauth.Secret.{constant_time_eq}
use sharp_oauth.OAuth.Pkce.{is_verifier_byte, is_valid_verifier, s256_challenge, verify_s256}

-- ALPHA, DIGIT, "-", ".", "_" and "~".
abbrev pub unreserved : String
unreserved = "ABCDEFGHIJKLMNOPQRSTUVWXYZabcdefghijklmnopqrstuvwxyz0123456789-._~"

abbrev pub stands_in : String → ℕ → Bool
stands_in s c = any_code (λ d. eqb d c) s

-- 43 to 128 unreserved characters.
pub record IsVerifier (verifier : String) : Type 0 where
  pub long : 43 ≤ count verifier
  pub short : count verifier ≤ 128
  pub plain : all_codes (stands_in unreserved) verifier ≡ true

all_below : (ℕ → Bool) → ℕ → Bool
all_below p zero = true
all_below p (suc n) = p n && all_below p n

below : (p : ℕ → Bool) (n c : ℕ) → all_below p n ≡ true → c < n → p c ≡ true
unfolding all_below
below p zero c h less = ground arith
below p (suc n) c h less = elim (Bool-cases (eqb c n)) [
  | inl last ↦
      let same : c ≡ n = ground arith in let holds : p n ≡ true = ground arith in rw same holds
  | inr other ↦ below p n c (ground arith) (ground arith)
]

ascii_only :
    (s : String) (c : ℕ) → all_codes (λ d. ltb d 128) s ≡ true → 128 ≤ c → stands_in s c ≡ false
unfolding all_codes any_code
ascii_only [] c h high = refl
ascii_only (d ∷ s) c h high = ground (arith, ascii_only s c)

abbrev agree : Bool → Bool → Bool
agree a b = if a then b else not b

agree-eq : (a b : Bool) → agree a b ≡ true → a ≡ b
agree-eq a b h = ground arith

-- The byte test of the code is the alphabet of the RFC.
is_verifier_byte-unreserved : (c : ℕ) → is_verifier_byte c ≡ stands_in unreserved c
unfolding all_below any_code all_codes
is_verifier_byte-unreserved c = elim (Bool-cases (ltb c 128)) [
  | inl low ↦
      agree-eq _ _
        (below (λ d. agree (is_verifier_byte d) (stands_in unreserved d)) 128 c refl (ground arith))
  | inr high ↦
      let outside : stands_in unreserved c ≡ false = ascii_only unreserved c refl (ground arith) in
      let refused : is_verifier_byte c ≡ false = ground arith in refused ∙ sym outside
]

-- A text of ASCII characters has as many bytes as characters.
len-count : (s : String) → all_codes is_verifier_byte s ≡ true → len s ≡ count s
unfolding all_codes
len-count [] h = refl
len-count (c ∷ s) h =
    let narrow : len_utf8 c ≡ 1 = ground (arith, len_utf8_def c) in
    len.cons c s ∙ ground (arith, narrow, count.cons c s, len-count s)

bytes-unreserved : (s : String) → all_codes is_verifier_byte s ≡ all_codes (stands_in unreserved) s
bytes-unreserved s = ap (λ (p : ℕ → Bool). all_codes p s) (λ i c. is_verifier_byte-unreserved c i)

-- With a comparison that answers as `==`, a verifier is accepted exactly when it has 43 to 128
-- characters, all of them unreserved ones of RFC 7636, and the base64url form of its SHA-256 hash is
-- the stored challenge.
pub verify_s256_iff :
    (p : Platform) (verifier challenge : String)
    → ComparesTexts p
    → (verify_s256 p verifier challenge ≡ true)
      ↔ (IsVerifier verifier × (p.base64url (p.sha256 verifier) ≡ challenge))
unfolding verify_s256 is_valid_verifier s256_challenge constant_time_eq
verify_s256_iff p verifier challenge compares = ground (
  arith,
  compares (p.base64url (p.sha256 verifier)) challenge,
  len-count verifier,
  bytes-unreserved verifier,
)
