-- ===== src/OAuth/Client/Credentials.antt =====
-- Client authentication at the token and revocation endpoints.
pub mod Admission
use Prim.Native.String
use sharp_oauth.Prelude.{
  Bool, true, false, not, ◌&&◌, String, Option, none, some, Result, ok, err, ◌>>?◌, ◌==◌,
  is_some_and, if◌then◌else◌, is_empty, split_once, eq_ignore_ascii_case, replace, and_then,
  unwrap_or, ok_or, keep_if,
}
use sharp_oauth.Error.{AppError, invalid_request, invalid_client, database}
use sharp_oauth.Platform.{Platform}
use sharp_oauth.Secret.{hash_token, constant_time_eq}
use sharp_oauth.Storage.{OAuthClient}
use sharp_oauth.Storage.Clients.{find_by_client_id}
use sharp_oauth.Storage.Conn.{M, lift, on_pool, ◌>>=◌}
use sharp_oauth.OAuth.Params.{Params, get}
use sharp_oauth.OAuth.Client.Registry.{is_confidential, is_active}

pub record ClientCredentials : Type 0 where
  pub client_id : String
  pub client_secret : Option String

unfoldable pub has_scheme : String → String → Bool
has_scheme header scheme =
    is_some_and (split_once b' ' header) (λ parts. eq_ignore_ascii_case parts.0 scheme)

unfoldable pub form_urldecode : Platform → String → String
form_urldecode p value =
    unwrap_or "" (p.form_first_value (String.◌++◌ "v=" (replace b'&' "%26" value)))

abbrev named_pair : String × String → Option (String × String)
named_pair (id, secret) = if not (is_empty id) then some (id, secret) else none

abbrev decoded_pair : Platform → String × String → Option (String × String)
decoded_pair p (id, secret) = named_pair (form_urldecode p id, form_urldecode p secret)

unfoldable pub parse_basic_authorization : Platform → String → Option (String × String)
parse_basic_authorization p header = and_then (split_once b' ' header) λ parts.
    if not (eq_ignore_ascii_case parts.0 "Basic")
    then none
    else and_then (p.decode_base64 (p.trim parts.1)) λ bytes.
      and_then (p.from_utf8 bytes) λ decoded. and_then (split_once b':' decoded) (decoded_pair p)

-- The credentials of a `Basic` header; another scheme, or no header, gives none.
unfoldable pub basic_credentials :
    Platform → Option String → Result AppError (Option (String × String))
basic_credentials p none = ok none
basic_credentials p (some header) =
    if has_scheme header "Basic"
    then (ok_or invalid_client (parse_basic_authorization p header) >>? λ pair. ok (some pair))
    else ok none

abbrev choose :
    Params → Option (String × String) → Option String → Result AppError ClientCredentials
choose params (some basic) (some _) =
    err (invalid_request "use only one client authentication method")
choose params (some basic) none =
    if is_some_and (get params "client_id") (λ id. not (id == basic.0))
    then err invalid_client
    else ok (record { client_id = basic.0; client_secret = some basic.1 })
choose params none client_secret = ok_or invalid_client (get params "client_id") >>? λ client_id.
    ok (record { client_id = client_id; client_secret = client_secret })

unfoldable pub extract_credentials :
    Platform → Option String → Params → Result AppError ClientCredentials
extract_credentials p authorization_header params =
    basic_credentials p authorization_header >>? λ basic.
    choose params basic (get params "client_secret")

-- The comparison of `authenticate`, by whether a secret was presented.
unfoldable pub secret_matches : Platform → OAuthClient → Option String → Bool
secret_matches p client (some secret) =
    is_some_and client.client_secret_hash
      (λ stored. constant_time_eq p (hash_token p secret) stored)
secret_matches p client none = not (is_confidential client)

abbrev pub admit : Platform → Option String → Option OAuthClient → Result AppError OAuthClient
admit p client_secret none = err invalid_client
admit p client_secret (some client) =
    if secret_matches p client client_secret then ok client else err invalid_client

unfoldable pub authenticate : Platform → ClientCredentials → M AppError OAuthClient
authenticate p credentials = do
  found ← on_pool database (find_by_client_id credentials.client_id)
  lift (admit p credentials.client_secret (keep_if is_active found))
