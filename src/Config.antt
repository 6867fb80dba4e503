-- ===== src/Config.antt =====
-- src/config/mod.rs: what the endpoints read of the configuration, and the rules for the issuer.
use sharp_oauth.Prelude.{
  ◌/◌, ◌^◌, Bool, false, ◌||◌, ◌&&◌, String, none, some, Result, ok, err, ◌==◌, eqb, is_some,
  if◌then◌else◌, trim_end,
}
use text.Mathlib.Text.{starts_with}
use Prim.Native.String
use sharp_oauth.Platform.{Platform, Url, Host, domain, ipv4, ipv6}

-- The fields of `Config` that requests use.
pub record Config : Type 0 where
  pub issuer : String

-- 127.0.0.0/8 and ::1, as `Ipv4Addr::is_loopback` and `Ipv6Addr::is_loopback` have it.
abbrev pub is_loopback : Host → Bool
is_loopback (domain name) = name == "localhost"
is_loopback (ipv4 bits) = eqb (bits / 2 ^ 24) 127
is_loopback (ipv6 bits) = eqb bits 1

unfoldable pub is_loopback_host : Url → Bool
is_loopback_host url = elim url.host [ none ↦ false | some host ↦ is_loopback host ]

abbrev scheme_allowed : Url → Bool
unfolding is_loopback_host
scheme_allowed url = url.scheme == "https" || (url.scheme == "http" && is_loopback_host url)

pub data IssuerError : Type 0 where
  not_absolute query_or_fragment not_https : IssuerError

abbrev checked_issuer : String → Url → Result IssuerError String
unfolding is_loopback_host trim_end
checked_issuer raw url =
    if is_some url.query || is_some url.fragment
    then err query_or_fragment
    else if scheme_allowed url
    then ok (trim_end b'/' raw)
    else err not_https

unfoldable pub normalize_issuer : Platform → String → Result IssuerError String
unfolding is_loopback_host trim_end
normalize_issuer p raw = elim (p.parse_url raw) [
  | none ↦ err not_absolute
  | some url ↦ checked_issuer raw url
]

unfoldable pub secure_cookies : Config → Bool
secure_cookies config = starts_with config.issuer "https://"

unfoldable pub url : Config → String → String
url config path = String.◌++◌ config.issuer path
