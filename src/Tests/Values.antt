-- ===== src/Tests/Values.antt =====
-- Runs of the operations on scopes, parameters and proof keys.
use sharp_oauth.Prelude.{◌≡◌, ◌↔◌, refl, true, [], ◌∷◌, ok}
use sharp_oauth.Scope.{ScopeSet, parse, to_string}
use sharp_oauth.Scope.Wire.{parse-to_string-parse}
use sharp_oauth.OAuth.Pkce.{verify_s256}
use sharp_oauth.OAuth.Pkce.Verifiers.{IsVerifier, verify_s256_iff}
use sharp_oauth.Tests.World.{platform, platform-ComparesTexts, text_z}

abbrev both : ScopeSet
both = "email" ∷ "openid" ∷ []

reads : parse "openid  email openid" ≡ ok both
unfolding sharp_oauth.Scope.parse
reads = refl

parse-to_string-parse_example : parse (to_string both) ≡ ok both
parse-to_string-parse_example = parse-to_string-parse "openid  email openid" both reads

verify_s256_iff_example :
    (verify_s256 platform text_z text_z ≡ true)
    ↔ (IsVerifier text_z × (platform.base64url (platform.sha256 text_z) ≡ text_z))
verify_s256_iff_example = verify_s256_iff platform text_z text_z platform-ComparesTexts
