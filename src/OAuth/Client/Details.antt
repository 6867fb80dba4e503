-- ===== src/OAuth/Client/Details.antt =====
-- What a developer chooses about a client: name, redirect URIs, scopes. Validation normalises it.
pub mod Uris
use sharp_oauth.Prelude.{
  ℕ, Bool, true, false, not, ◌&&◌, ◌||◌, String, count, Option, none, some, List, [], ◌∷◌, ◌++◌,
  Result, ok, err, ◌==◌, ltb, is_some, if◌then◌else◌, is_empty, mem, any, filter, length, reject_if,
  ok_or,
}
use sharp_oauth.Error.{DbErr}
use sharp_oauth.Platform.{Platform, Url}
use sharp_oauth.Config.{is_loopback_host}
use sharp_oauth.Scope.{ScopeSet}
use sharp_oauth.Storage.{ScopeDescription}
use sharp_oauth.Storage.Conn.{M, pure, lift, on_pool, ◌>>=◌, ◌>>◌}
use sharp_oauth.Storage.Scopes.{find_by_names}

abbrev pub max_name_len : ℕ
max_name_len = 80

abbrev pub max_redirect_uris : ℕ
max_redirect_uris = 10

pub record ClientDetails : Type 0 where
  pub name : String
  pub redirect_uris : List String
  pub scopes : ScopeSet

pub data RegistrationError : Type 0 where
  empty_name name_too_long no_redirect_uris too_many_redirect_uris no_scopes : RegistrationError
  invalid_redirect_uri : String → String → RegistrationError
  unknown_scopes : List String → RegistrationError
  database : DbErr → RegistrationError

abbrev check_scheme : Url → Result String (Unit {0})
check_scheme url =
    if url.scheme == "https" || (url.scheme == "http" && is_loopback_host url)
    then ok tt
    else err "must use https (http is only allowed for localhost)"

abbrev check_url : Url → Result String (Unit {0})
check_url url =
    if is_some url.fragment
    then err "must not contain a fragment (#...)"
    else if not (is_empty url.username) || is_some url.password
    then err "must not contain credentials"
    else check_scheme url

unfoldable pub validate_redirect_uri_for_registration : Platform → String → Result String (Unit {0})
validate_redirect_uri_for_registration p uri = elim (p.parse_url uri) [
  | none ↦ err "must be an absolute URL"
  | some url ↦ check_url url
]

-- The loop that drops repeated redirect URIs, keeping the first.
unfoldable pub dedup : List String → List String → List String
dedup kept [] = kept
dedup kept (uri ∷ uris) = dedup (if mem uri kept then kept else kept ++ uri ∷ []) uris

-- The loop that validates every redirect URI.
unfoldable pub check_uris : Platform → List String → Result RegistrationError (Unit {0})
check_uris p [] = ok tt
check_uris p (uri ∷ uris) = elim (validate_redirect_uri_for_registration p uri) [
  | ok _ ↦ check_uris p uris
  | err reason ↦ err (invalid_redirect_uri uri reason)
]

abbrev is_nil : List String → Bool
is_nil [] = true
is_nil (_ ∷ _) = false

abbrev pub unknown_names : List ScopeDescription → List String → List String
unknown_names known = filter (λ scope. not (any (λ k. k.name == scope) known))

unfoldable pub validate_details : Platform → ClientDetails → M RegistrationError ClientDetails
validate_details p details = do
  let name = p.trim details.name
  lift (reject_if (is_empty name) empty_name)
  lift (reject_if (ltb max_name_len (count name)) name_too_long)
  let redirect_uris = dedup [] details.redirect_uris
  lift (reject_if (is_nil redirect_uris) no_redirect_uris)
  lift (reject_if (ltb max_redirect_uris (length redirect_uris)) too_many_redirect_uris)
  lift (check_uris p redirect_uris)
  lift (reject_if (is_nil details.scopes) no_scopes)
  known ← on_pool database (find_by_names details.scopes)
  let unknown = unknown_names known details.scopes
  lift (reject_if (not (is_nil unknown)) (unknown_scopes unknown))
  pure (record { name = name; redirect_uris = redirect_uris; scopes = details.scopes })
