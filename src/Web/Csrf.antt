-- ===== src/Web/Csrf.antt =====
-- src/middlewares/csrf.rs: a form carries the value of a cookie, which another site cannot read.
use sharp_oauth.Prelude.{Bool, false, String, len, Option, none, some, eqb, keep_if}
use sharp_oauth.Platform.{Platform, Bytes}
use sharp_oauth.Secret.{generate_token, constant_time_eq}
use sharp_oauth.Web.Http.{Headers, Response, append_cookie, error_page}
use sharp_oauth.Web.Cookies.{get, set}

abbrev pub csrf_cookie : String
csrf_cookie = "sharp_csrf"

abbrev pub csrf_field : String
csrf_field = "csrf_token"

pub record CsrfToken : Type 0 where
  pub value : String
  pub set_cookie : Option String

abbrev new_token : String → Bool → CsrfToken
new_token value secure = record {
  value = value;
  set_cookie = some (set csrf_cookie value none secure);
}

abbrev token_for : Platform → Bool → Bytes → Option String → CsrfToken
token_for p secure bytes none = new_token (generate_token p bytes) secure
token_for p secure bytes (some value) = record { value = value; set_cookie = none }

-- `bytes` are drawn if the browser has no token yet.
unfoldable pub issue : Platform → Headers → Bool → Bytes → CsrfToken
issue p headers secure bytes =
    token_for p secure bytes (keep_if (λ value. eqb (len value) 43) (get p headers csrf_cookie))

abbrev pub matches : Platform → Option String → Option String → Bool
matches p (some cookie) (some submitted) = constant_time_eq p cookie submitted
matches p _ _ = false

unfoldable pub verify : Platform → Headers → Option String → Bool
verify p headers submitted = matches p (get p headers csrf_cookie) submitted

abbrev with_cookie : Response → Option String → Response
with_cookie response none = response
with_cookie response (some cookie) = append_cookie response cookie

unfoldable pub with_csrf_cookie : Response → CsrfToken → Response
with_csrf_cookie response csrf = with_cookie response csrf.set_cookie

unfoldable pub csrf_failure : Response
csrf_failure =
    error_page 403 "Please try again"
      "This form expired or was submitted from another site. Go back, reload the page and try again."
