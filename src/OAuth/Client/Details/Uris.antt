-- ===== src/OAuth/Client/Details/Uris.antt =====
-- The redirect URIs and the other details of a client after validation.
use sharp_oauth.Prelude.{
  ◌≡◌, ◌↔◌, ◌≤◌, refl, ◌∙◌, true, false, ◌||◌, ◌&&◌, String, Option, none, some, ◌⊎◌, List, [], ◌∷◌,
  ◌++◌, ok, arith, ◌==◌, eq_iff, Bool-cases, Option-cases, inl, inr, mem, All, is_empty, length,
  count,
}
use sharp_oauth.Platform.{Platform, Url, Host, domain, ipv4, ipv6}
use sharp_oauth.Config.{is_loopback, is_loopback_host}
use sharp_oauth.Storage.Conn.{Conn, pure}
use sharp_oauth.Storage.Conn.Steps.{after_lift, after_pool}
use sharp_oauth.OAuth.Client.Details.{
  ClientDetails, validate_redirect_uri_for_registration, dedup, check_uris, validate_details,
  max_name_len, max_redirect_uris,
}

-- `localhost`, 127.0.0.0 to 127.255.255.255, or ::1.
abbrev pub IsThisMachine : Option Host → Type 0
IsThisMachine none = ⊥
IsThisMachine (some (domain name)) = name ≡ "localhost"
IsThisMachine (some (ipv4 bits)) = (2_130_706_432 ≤ bits) × (bits ≤ 2_147_483_647)
IsThisMachine (some (ipv6 bits)) = bits ≡ 1

-- https to anywhere, or http to this machine.
abbrev pub IsSecure : Url → Type 0
IsSecure url = (url.scheme ≡ "https") ⊎ ((url.scheme ≡ "http") × IsThisMachine url.host)

-- An absolute URL without fragment and credentials, over https or to this machine.
pub record IsAcceptable (p : Platform) (uri : String) : Type 0 where
  pub url : Url
  pub parses : p.parse_url uri ≡ some url
  pub no_fragment : url.fragment ≡ none
  pub no_username : url.username ≡ ""
  pub no_password : url.password ≡ none
  pub secure : IsSecure url

empty : (s : String) → is_empty s ≡ true → s ≡ ""
unfolding is_empty
empty String.[] h = refl
empty (String.◌∷◌ c s) h = ground arith

is_empty_iff : (s : String) → (is_empty s ≡ true) ↔ (s ≡ "")
unfolding is_empty
is_empty_iff s = (empty s, λ same. rw same refl)

is_loopback_iff : (host : Host) → (is_loopback host ≡ true) ↔ IsThisMachine (some host)
is_loopback_iff (domain name) = eq_iff name "localhost"
is_loopback_iff (ipv4 bits) = ground arith
is_loopback_iff (ipv6 bits) = ground arith

loopback_iff : (url : Url) → (is_loopback_host url ≡ true) ↔ IsThisMachine url.host
unfolding is_loopback_host
loopback_iff url = elim (Option-cases url.host) [
  | inl without ↦ rw without ((λ h. ground arith), λ x'. elim x' [ ])
  | inr (host, given) ↦ rw given (is_loopback_iff host)
]

IsSecure-iff :
    (url : Url)
    → ((url.scheme == "https" || (url.scheme == "http" && is_loopback_host url)) ≡ true)
      ↔ IsSecure url
IsSecure-iff url =
    let https = eq_iff url.scheme "https" in
    let http = eq_iff url.scheme "http" in
    let loopback = loopback_iff url in
    (
      λ h. elim (Bool-cases (url.scheme == "https")) [
        | inl secure ↦ inl (https.0 secure)
        | inr plain ↦ inr (http.0 (ground arith), loopback.0 (ground arith))
      ],
      λ secure. elim secure [
        | inl over_https ↦
            let same : (url.scheme == "https") ≡ true = https.1 over_https in rw same refl
        | inr (over_http, here) ↦
            let same : (url.scheme == "http") ≡ true = http.1 over_http in
            let local : is_loopback_host url ≡ true = loopback.1 here in ground (arith, same, local)
      ],
    )

validate_redirect_uri-IsAcceptable :
    (p : Platform) (uri : String)
    → validate_redirect_uri_for_registration p uri ≡ ok tt
    → IsAcceptable p uri
unfolding validate_redirect_uri_for_registration
validate_redirect_uri-IsAcceptable p uri h = elim (Option-cases (p.parse_url uri)) [
  | inl relative ↦ absurd (ground arith)
  | inr (url, parses) ↦ record {
    url = url;
    parses = parses;
    no_fragment = ground arith;
    no_username = empty url.username (ground arith);
    no_password = ground arith;
    secure = (IsSecure-iff url).0 (ground arith);
  }
]

-- A redirect URI is accepted exactly when it is an absolute URL without fragment and credentials,
-- over https, or over http to `localhost`, an address of 127.0.0.0/8 or ::1.
pub validate_redirect_uri_iff :
    (p : Platform) (uri : String)
    → (validate_redirect_uri_for_registration p uri ≡ ok tt) ↔ IsAcceptable p uri
unfolding validate_redirect_uri_for_registration
validate_redirect_uri_iff p uri = (validate_redirect_uri-IsAcceptable p uri, accepts)
  where
    accepts : IsAcceptable p uri → validate_redirect_uri_for_registration p uri ≡ ok tt
    accepts h =
        let anonymous : is_empty h.url.username ≡ true =
          (is_empty_iff h.url.username).1 h.no_username in
        let secure = (IsSecure-iff h.url).1 h.secure in
        ground (arith, h.parses, h.no_fragment, anonymous, h.no_password, secure)

check_uris-All :
    (p : Platform) (uris : List String) → check_uris p uris ≡ ok tt → All (IsAcceptable p) uris
unfolding check_uris
check_uris-All p [] h = tt
check_uris-All p (uri ∷ uris) h =
    (validate_redirect_uri-IsAcceptable p uri (ground arith), check_uris-All p uris (ground arith))

-- No text stands twice.
abbrev pub IsDistinct : List String → Type 0
IsDistinct [] = Unit
IsDistinct (x ∷ xs) = (mem x xs ≡ false) × IsDistinct xs

mem-append : (x : String) (xs ys : List String) → mem x (xs ++ ys) ≡ (mem x xs || mem x ys)
mem-append x [] ys = refl
mem-append x (y ∷ xs) ys = ground (arith, mem-append x xs ys)

append-IsDistinct :
    (xs : List String) (y : String) → IsDistinct xs → mem y xs ≡ false → IsDistinct (xs ++ y ∷ [])
append-IsDistinct [] y d h = (refl, tt)
append-IsDistinct (x ∷ xs) y d h = (
  ground (arith, mem-append x xs (y ∷ []), eq_iff x y, eq_iff y x),
  append-IsDistinct xs y d.1 (ground arith),
)

-- Dropping the repeats of a list keeps every text of it, and nothing stands twice afterwards.
pub dedup_lem :
    (kept uris : List String)
    → IsDistinct kept
    → IsDistinct (dedup kept uris)
      × ((x : String) → mem x (dedup kept uris) ≡ (mem x kept || mem x uris))
unfolding dedup
dedup_lem kept [] d = (d, λ x. ground arith)
dedup_lem kept (uri ∷ uris) d = elim (Bool-cases (mem uri kept)) [
  | inl again ↦
      let (distinct, same) = dedup_lem kept uris d in
      (rw again distinct, λ x. rw again (same x ∙ ground (arith, eq_iff uri x)))
  | inr new ↦
      let (distinct, same) = dedup_lem (kept ++ uri ∷ []) uris (append-IsDistinct kept uri d new) in
      (rw new distinct, λ x. rw new (same x ∙ ground (arith, mem-append x kept (uri ∷ []))))
]

-- What validation promises of a client's details.
pub record IsRegistrable (p : Platform) (details : ClientDetails) : Type 0 where
  pub named : is_empty details.name ≡ false
  pub name_short : count details.name ≤ max_name_len
  pub uris_few : length details.redirect_uris ≤ max_redirect_uris
  pub uris_some : ¬ (details.redirect_uris ≡ [])
  pub scopes_some : ¬ (details.scopes ≡ [])
  pub distinct : IsDistinct details.redirect_uris
  pub acceptable : All (IsAcceptable p) details.redirect_uris

-- Details that pass validation have a name of at most 80 characters, one to ten different redirect
-- URIs that are all acceptable, and at least one scope.
pub validate_details-IsRegistrable :
    (p : Platform) (given details : ClientDetails) (c c' : Conn)
    → validate_details p given c ≡ (ok details, c')
    → IsRegistrable p details
unfolding validate_details pure
validate_details-IsRegistrable p given details c c' h = after_lift _ c _ h λ _ named h₁.
    after_lift _ c _ h₁ λ _ name_short h₂. after_lift _ c _ h₂ λ _ uris_some h₃.
      after_lift _ c _ h₃ λ _ uris_few h₄. after_lift _ c _ h₄ λ _ acceptable h₅.
        after_lift _ c _ h₅ λ _ scopes_some h₆. after_pool _ c _ _ h₆ λ known c₁ run h₇.
          after_lift _ c₁ _ h₇ λ _ all_known fin.
            let is_name : p.trim given.name ≡ details.name = ground (arith, fin) in
            let is_uris : dedup [] given.redirect_uris ≡ details.redirect_uris =
              ground (arith, fin) in
            let is_scopes : given.scopes ≡ details.scopes = ground (arith, fin) in
            record {
              named = rw (← is_name) (ground (arith, named));
              name_short = rw (← is_name) (ground (arith, name_short));
              uris_few = rw (← is_uris) (ground (arith, uris_few));
              uris_some = λ none_left. ground arith;
              scopes_some = λ none_left. ground arith;
              distinct = rw (← is_uris) ((dedup_lem [] given.redirect_uris tt).0);
              acceptable = rw (← is_uris) (check_uris-All p _ acceptable);
            }
