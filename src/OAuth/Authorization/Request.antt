-- ===== src/OAuth/Authorization/Request.antt =====
-- The raw parameters of an authorization request, and the requests that are built from them.
use Prim.Native.String
use sharp_oauth.Prelude.{
  Bool, not, String, Option, none, some, [], ◌∷◌, ◌==◌, is_some, keep_if, filter, split, join,
  is_empty,
}
use sharp_oauth.Platform.{Platform}
use sharp_oauth.OAuth.Params.{Params, Pairs, get}

pub record AuthorizationRequest : Type 0 where
  pub client_id : Option String
  pub redirect_uri : Option String
  pub response_type : Option String
  pub response_mode : Option String
  pub scope : Option String
  pub state : Option String
  pub code_challenge : Option String
  pub code_challenge_method : Option String
  pub nonce : Option String
  pub prompt : Option String
  pub max_age : Option String
  pub has_request_object : Bool
  pub has_request_uri : Bool

unfoldable pub from_params : Params → AuthorizationRequest
from_params params = record {
  client_id = get params "client_id";
  redirect_uri = get params "redirect_uri";
  response_type = get params "response_type";
  response_mode = get params "response_mode";
  scope = get params "scope";
  state = get params "state";
  code_challenge = get params "code_challenge";
  code_challenge_method = get params "code_challenge_method";
  nonce = get params "nonce";
  prompt = get params "prompt";
  max_age = get params "max_age";
  has_request_object = is_some (get params "request");
  has_request_uri = is_some (get params "request_uri");
}

-- One step of the `filter_map` of `to_pairs`.
abbrev pub add_pair : String → Option String → Pairs → Pairs
add_pair name none pairs = pairs
add_pair name (some value) pairs = (name, value) ∷ pairs

unfoldable pub to_pairs : AuthorizationRequest → Pairs
to_pairs self = add_pair "client_id" self.client_id (
    add_pair "redirect_uri" self.redirect_uri (
      add_pair "response_type" self.response_type (
        add_pair "response_mode" self.response_mode (
          add_pair "scope" self.scope (
            add_pair "state" self.state (
              add_pair "code_challenge" self.code_challenge (
                add_pair "code_challenge_method" self.code_challenge_method (
                  add_pair "nonce" self.nonce
                    (add_pair "prompt" self.prompt (add_pair "max_age" self.max_age []))))))))))

unfoldable pub to_path : Platform → AuthorizationRequest → String
to_path p self = String.◌++◌ "/oauth/authorize?" (p.encode_query (to_pairs self))

-- The `prompt` without the value `login`.
unfoldable pub drop_login : String → String
drop_login prompt = join " " (filter (λ value. not (value == "login")) (split b' ' prompt))

abbrev dropped : Option String → Option String
dropped none = none
dropped (some prompt) = some (drop_login prompt)

unfoldable pub without_reauthentication : AuthorizationRequest → AuthorizationRequest
without_reauthentication self = record self {
  prompt = keep_if (λ prompt. not (is_empty prompt)) (dropped self.prompt);
  max_age = none;
}
