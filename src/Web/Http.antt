-- ===== src/Web/Http.antt =====
-- What the controllers read of a request and answer: src/shared/response.rs and src/shared/views.rs.
-- A page is the data of its template; the HTML that askama makes of it is not modelled, and making
-- it is taken to succeed.
use Prim.Native.String
use sharp_oauth.Prelude.{ℕ, String, Option, none, some, List, [], ◌∷◌, ◌++◌}
use sharp_oauth.Platform.{Platform}
use sharp_oauth.Storage.{User, OAuthClient, ScopeDescription}
use sharp_oauth.OAuth.Params.{Pairs}
use sharp_oauth.Developer.Form.{AppForm}

-- The headers that the server reads. A value that is not text (`to_str`) is `none`.
pub record Headers : Type 0 where
  pub cookies : List (Option String)
  pub authorization : Option String

pub record DeveloperAppMessages : Type 0 where
  pub new_secret : Option String
  pub notice : Option String
  pub error : Option String

pub record SignInTemplate : Type 0 where
  pub csrf : String
  pub return_to : Option String
  pub return_to_query : String
  pub email : String
  pub error : Option String

pub record SignUpTemplate : Type 0 where
  pub csrf : String
  pub return_to : Option String
  pub return_to_query : String
  pub email : String
  pub display_name : String
  pub error : Option String

pub record ConsentTemplate : Type 0 where
  pub csrf : String
  pub client_name : String
  pub user : User
  pub scopes : List ScopeDescription
  pub request_fields : Pairs

pub record DeveloperAppTemplate : Type 0 where
  pub csrf : String
  pub issuer : String
  pub app : OAuthClient
  pub scopes : List ScopeDescription
  pub form : AppForm
  pub new_secret : Option String
  pub notice : Option String
  pub error : Option String

pub data Template : Type 0 where
  home : Option User → String → Template
  sign_in : SignInTemplate → Template
  sign_up : SignUpTemplate → Template
  consent : ConsentTemplate → Template
  failure : String → String → Template
  developer_apps : List OAuthClient → Option String → Template
  developer_new_app : String → List ScopeDescription → AppForm → Option String → Template
  developer_app : DeveloperAppTemplate → Template

-- A 303 to a location, or a page with its status.
pub data Body : Type 0 where
  see_other : String → Body
  page : ℕ → Template → Body

pub record Response : Type 0 where
  pub body : Body
  pub set_cookies : List String

unfoldable pub redirect : String → Response
redirect location = record { body = see_other location; set_cookies = [] }

unfoldable pub render : ℕ → Template → Response
render status template = record { body = page status template; set_cookies = [] }

-- `headers_mut().append(SET_COOKIE, …)`.
abbrev pub append_cookie : Response → String → Response
append_cookie response cookie = record response {
  set_cookies = response.set_cookies ++ cookie ∷ [];
}

unfoldable pub error_page : ℕ → String → String → Response
unfolding render
error_page status title message = render status (failure title message)

unfoldable pub internal_error : {E : Type 0} → E → Response
unfolding error_page render
internal_error _ = error_page 500 "Something went wrong" "Please try again in a moment."

-- `?return_to=…`, percent-encoded.
abbrev pub query_of : Platform → String → String
query_of p path = String.◌++◌ "?" (p.encode_query (("return_to", path) ∷ []))

unfoldable pub return_to_query : Platform → Option String → String
return_to_query p none = ""
return_to_query p (some path) = query_of p path

abbrev pub sign_in_location : Platform → String → String
sign_in_location p path = String.◌++◌ "/signin" (query_of p path)

unfoldable pub home_page : Option User → String → Response
unfolding render
home_page user csrf = render 200 (home user csrf)

unfoldable pub sign_in_page :
    Platform → ℕ → String → Option String → String → Option String → Response
unfolding render return_to_query
sign_in_page p status csrf return_to email error = render status (
    sign_in (record {
      csrf = csrf;
      return_to = return_to;
      return_to_query = return_to_query p return_to;
      email = email;
      error = error;
    }))

unfoldable pub sign_up_page :
    Platform → ℕ → String → Option String → String → String → Option String → Response
unfolding render return_to_query
sign_up_page p status csrf return_to email display_name error = render status (
    sign_up (record {
      csrf = csrf;
      return_to = return_to;
      return_to_query = return_to_query p return_to;
      email = email;
      display_name = display_name;
      error = error;
    }))

unfoldable pub consent_page : String → String → User → List ScopeDescription → Pairs → Response
unfolding render
consent_page csrf client_name user scopes request_fields = render 200 (
    consent (record {
      csrf = csrf;
      client_name = client_name;
      user = user;
      scopes = scopes;
      request_fields = request_fields;
    }))

unfoldable pub developer_apps_page : List OAuthClient → Option String → Response
unfolding render
developer_apps_page apps notice = render 200 (developer_apps apps notice)

unfoldable pub developer_new_app_page :
    ℕ → String → List ScopeDescription → AppForm → Option String → Response
unfolding render
developer_new_app_page status csrf scopes form error =
    render status (developer_new_app csrf scopes form error)

unfoldable pub developer_app_page :
    ℕ
    → String
    → String
    → OAuthClient
    → List ScopeDescription
    → AppForm
    → DeveloperAppMessages
    → Response
unfolding render
developer_app_page status csrf issuer app scopes form messages = render status (
    developer_app (record {
      csrf = csrf;
      issuer = issuer;
      app = app;
      scopes = scopes;
      form = form;
      new_secret = messages.new_secret;
      notice = messages.notice;
      error = messages.error;
    }))
